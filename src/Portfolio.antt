-- ===== src/Portfolio.antt =====
-- src/portfolio/portfolio_service.cpp: positions, balances and profit from the fills. The products and
-- quotients of doubles are those of the `Arithmetic` that an operation is given.
pub mod Positions
pub mod Balances
use Prim.Native.String.{◌++◌ as ◌<>◌}
use wall.Core.{BalanceSnapshot, Double, FillEvent, OrderSide, Position, bare_instrument, one}
use wall.Core.Arithmetic.{Arithmetic}
use wall.Prelude.{Bool, List, Option, String, [], if◌then◌else◌, not, value_or, ◌||◌, ◌∷◌}
use wall.Prelude.Dict.{Dict, insert, lookup, modify, values}
use wall.Prelude.Int.{abs, eqb_ℤ, ltb_ℤ, min_ℤ, neg, pos, ◌+ℤ◌, ◌-ℤ◌}
use wall.Prelude.Text.{is_empty}

pub record PortfolioService : Type 0 where
  pub positions : Dict Position
  pub balances : Dict BalanceSnapshot
  pub mark_prices : Dict Double

unfoldable pub new_portfolio : PortfolioService
new_portfolio = record { positions = []; balances = []; mark_prices = [] }

unfoldable pub get_position : PortfolioService → String → Option Position
get_position p instrument_id = lookup instrument_id p.positions

abbrev pub blank_balance : String → BalanceSnapshot
blank_balance asset = record { asset = asset; total_balance = pos 0; available_balance = pos 0 }

unfoldable pub get_balance : PortfolioService → String → BalanceSnapshot
get_balance p asset = value_or (lookup asset p.balances) (blank_balance asset)

abbrev pub sign : Double → Double
sign v = if ltb_ℤ (pos 0) v then one else if ltb_ℤ v (pos 0) then neg one else pos 0

abbrev pub is_zero : Double → Bool
is_zero v = eqb_ℤ v (pos 0)

unfoldable pub update_unrealized : Arithmetic → Position → Double → Position
update_unrealized A s mark_price = record s {
  unrealized_pnl =
      if is_zero s.net_quantity
      then pos 0
      else A.times (mark_price -ℤ s.average_entry_price) s.net_quantity;
}

abbrev pub signed_fill_quantity : FillEvent → Double
signed_fill_quantity f = elim f.side [
  | OrderSide.buy ↦ f.quantity
  | OrderSide.sell ↦ neg f.quantity
]

-- The first branch of `apply_fill_to_position`: the fill opens the position or adds to it.
abbrev pub opened : Arithmetic → Position → FillEvent → Position
opened A s f =
    let new_quantity = s.net_quantity +ℤ signed_fill_quantity f in
    let weighted_notional =
      A.times (abs s.net_quantity) s.average_entry_price
      +ℤ A.times (abs (signed_fill_quantity f)) f.price in
    record s {
      net_quantity = new_quantity;
      average_entry_price =
          if ltb_ℤ (pos 0) (abs new_quantity)
          then A.over weighted_notional (abs new_quantity)
          else pos 0;
    }

-- The second branch: the fill reduces the position, closes it or turns it over.
abbrev pub closed : Arithmetic → Position → FillEvent → Position
closed A s f =
    let closing_quantity = min_ℤ (abs s.net_quantity) (abs (signed_fill_quantity f)) in
    let new_quantity = s.net_quantity +ℤ signed_fill_quantity f in
    record s {
      realized_pnl =
          s.realized_pnl
          +ℤ A.times (A.times closing_quantity (f.price -ℤ s.average_entry_price))
              (sign s.net_quantity);
      net_quantity = new_quantity;
      average_entry_price =
          if is_zero new_quantity
          then pos 0
          else if not (eqb_ℤ (sign s.net_quantity) (sign new_quantity))
          then f.price
          else s.average_entry_price;
    }

abbrev pub adds_to : Position → FillEvent → Bool
adds_to s f = is_zero s.net_quantity || eqb_ℤ (sign s.net_quantity) (sign (signed_fill_quantity f))

unfoldable pub apply_fill_to_position : Arithmetic → Dict Double → Position → FillEvent → Position
unfolding update_unrealized
apply_fill_to_position A marks s f =
    update_unrealized A (if adds_to s f then opened A s f else closed A s f)
      (value_or (lookup f.instrument.instrument_id marks) f.price)

-- A step of `apply_fill_to_balances` on the balance that `balances_[asset]` refers to.
abbrev pub at_balance :
    String → (BalanceSnapshot → BalanceSnapshot) → Dict BalanceSnapshot → Dict BalanceSnapshot
at_balance asset g d = insert asset (g (value_or (lookup asset d) (blank_balance asset))) d

abbrev pub named : String → BalanceSnapshot → BalanceSnapshot
named asset b = record b { asset = asset }

abbrev pub credited : Double → BalanceSnapshot → BalanceSnapshot
credited amount b = record b { total_balance = b.total_balance +ℤ amount }

abbrev pub debited : Double → BalanceSnapshot → BalanceSnapshot
debited amount b = record b { total_balance = b.total_balance -ℤ amount }

abbrev pub made_available : BalanceSnapshot → BalanceSnapshot
made_available b = record b { available_balance = b.total_balance }

-- What the side of the fill moves from one balance to the other.
abbrev pub settled :
    Arithmetic → FillEvent → OrderSide → Dict BalanceSnapshot → Dict BalanceSnapshot
settled A f OrderSide.buy d =
    at_balance f.instrument.quote_asset (debited (A.times f.quantity f.price +ℤ f.fee))
      (at_balance f.instrument.base_asset (credited f.quantity) d)
settled A f OrderSide.sell d =
    at_balance f.instrument.quote_asset (credited (A.times f.quantity f.price -ℤ f.fee))
      (at_balance f.instrument.base_asset (debited f.quantity) d)

-- The two references may be to the same balance, so each step goes through the map.
unfoldable pub apply_fill_to_balances :
    Arithmetic → Dict BalanceSnapshot → FillEvent → Dict BalanceSnapshot
apply_fill_to_balances A d f =
    let base = f.instrument.base_asset in
    let quote = f.instrument.quote_asset in
    at_balance quote made_available (
      at_balance base made_available
        (settled A f f.side (at_balance quote (named quote) (at_balance base (named base) d))))

abbrev pub blank_position : Position
blank_position = record {
  position_id = "";
  instrument = bare_instrument "";
  net_quantity = pos 0;
  average_entry_price = pos 0;
  realized_pnl = pos 0;
  unrealized_pnl = pos 0;
}

abbrev pub identified : Position → FillEvent → Position
identified s f =
    if is_empty s.position_id
    then record s {
      position_id = "position-" <> f.instrument.instrument_id;
      instrument = f.instrument;
    }
    else s

abbrev pub position_of : PortfolioService → String → Position
position_of p instrument_id = value_or (lookup instrument_id p.positions) blank_position

unfoldable pub apply_fill : Arithmetic → PortfolioService → FillEvent → PortfolioService
unfolding apply_fill_to_position apply_fill_to_balances
apply_fill A p f = record p {
  positions =
      insert f.instrument.instrument_id
        (apply_fill_to_position A p.mark_prices
          (identified (position_of p f.instrument.instrument_id) f) f)
        p.positions;
  balances = apply_fill_to_balances A p.balances f;
}

unfoldable pub set_mark_price : Arithmetic → PortfolioService → String → Double → PortfolioService
unfolding update_unrealized
set_mark_price A p instrument_id price = record p {
  mark_prices = insert instrument_id price p.mark_prices;
  positions = modify instrument_id (λ s. update_unrealized A s price) p.positions;
}

unfoldable pub restore_position : PortfolioService → Position → PortfolioService
restore_position p s = record p { positions = insert s.instrument.instrument_id s p.positions }

unfoldable pub restore_balance : PortfolioService → BalanceSnapshot → PortfolioService
restore_balance p b = record p { balances = insert b.asset b p.balances }

abbrev pub all_positions : PortfolioService → List Position
all_positions p = values p.positions

abbrev pub all_balances : PortfolioService → List BalanceSnapshot
all_balances p = values p.balances

-- Fills applied in their order.
unfoldable pub apply_fills : Arithmetic → PortfolioService → List FillEvent → PortfolioService
unfolding apply_fill
apply_fills A p [] = p
apply_fills A p (f ∷ fs) = apply_fills A (apply_fill A p f) fs
