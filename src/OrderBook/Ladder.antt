-- ===== src/OrderBook/Ladder.antt =====
-- An abstract order book, against which src/execution/order_book.cpp is checked: each side is one
-- list of orders in the order in which they trade, without levels, queues, index or counter.
use mathlib.Core.Option
pub mod Placing
pub mod Taking
pub mod Filling
pub mod Held
pub mod Refines
pub mod Simulation
use wall.Core.{
  Double, Instrument, OrderRequest, OrderSide, OrderType, buy, limit, market, quantity_tolerance,
  sell,
}
use wall.OrderBook.{OrderBook, resting_order}
use wall.OrderBook.PriceLevels.{Levels, RestingOrder, before, remaining_after}
use wall.OrderBook.Queues.{reduced_order}
use wall.OrderBook.Safety.{Call, adds, cancels, fills}
use wall.Prelude.{
  Bool, List, Option, String, [], false, if◌then◌else◌, inc_u64, is_some, ite, none, some, true, ℕ,
  ◌++◌, ◌||◌, ◌∷◌,
}
use wall.Prelude.Int.{leb_ℤ, ltb_ℤ, pos, ◌+ℤ◌, ◌-ℤ◌}
use wall.Prelude.Text.{dec_str, is_empty}

-- A resting order with the price of its level.
abbrev pub Ladder : Type 0
Ladder = List (Double × RestingOrder)

-- A new order stands behind every order that its price does not come before.
unfoldable pub place : OrderSide → Double → RestingOrder → Ladder → Ladder
place s price o [] = (price, o) ∷ []
place s price o ((p, x) ∷ l) =
    if before s price p then (price, o) ∷ (p, x) ∷ l else (p, x) ∷ place s price o l

unfoldable pub find : String → Ladder → Option RestingOrder
find k [] = none
find k ((p, x) ∷ l) = ite (dec_str x.order_id k) (some x) (find k l)

unfoldable pub remove : String → Ladder → Ladder
remove k [] = []
remove k ((p, x) ∷ l) = ite (dec_str x.order_id k) l ((p, x) ∷ remove k l)

-- The order of an id, replaced where it stands.
unfoldable pub replace : String → RestingOrder → Ladder → Ladder
replace k y [] = []
replace k y ((p, x) ∷ l) = ite (dec_str x.order_id k) ((p, y) ∷ l) ((p, x) ∷ replace k y l)

pub record AbstractBook : Type 0 where
  pub instrument : Instrument
  pub bids : Ladder
  pub asks : Ladder
  pub next_sequence_number : ℕ

abbrev pub empty_book : Instrument → AbstractBook
empty_book i = record { instrument = i; bids = []; asks = []; next_sequence_number = 1 }

abbrev pub side_of : OrderSide → AbstractBook → Ladder
side_of buy a = a.bids
side_of sell a = a.asks

abbrev pub with_side : OrderSide → Ladder → AbstractBook → AbstractBook
with_side buy l a = record a { bids = l }
with_side sell l a = record a { asks = l }

-- The side on which an order of this id rests, with the order.
abbrev pub on_side : OrderSide → Option RestingOrder → Option (OrderSide × RestingOrder)
on_side s = Option.map (λ o. (s, o))

abbrev either_side : Option RestingOrder → Option RestingOrder → Option (OrderSide × RestingOrder)
either_side none o = on_side sell o
either_side (some o) _ = some (buy, o)

unfoldable pub held : String → AbstractBook → Option (OrderSide × RestingOrder)
held k a = either_side (find k a.bids) (find k a.asks)

abbrev pub limit_price : OrderType → Option Double → Option Double
limit_price limit (some p) = if ltb_ℤ (pos 0) p then some p else none
limit_price limit none = none
limit_price market _ = none

-- A limit order is admitted, at its price, that has its identifiers, this instrument, a positive
-- price and more than the tolerance left of its quantity, and whose identifier does not rest.
unfoldable pub admitted : AbstractBook → OrderRequest → String → String → Double → Option Double
admitted a r k c filled_quantity =
    if is_empty k || is_empty c || is_some (held k a)
    then none
    else if ltb_ℤ filled_quantity (pos 0)
        || leb_ℤ (r.quantity -ℤ quantity_tolerance) filled_quantity
    then none
    else ite (dec_str r.instrument.instrument_id a.instrument.instrument_id)
        (limit_price r.order_type r.price) none

abbrev pub adds_at :
    AbstractBook → OrderRequest → String → String → Double → Option Double → AbstractBook × Bool
adds_at a r k c filled_quantity none = (a, false)
adds_at a r k c filled_quantity (some p) =
    let o = resting_order r k c filled_quantity a.next_sequence_number in
    (
      record (with_side r.side (place r.side p o (side_of r.side a)) a) {
        next_sequence_number = inc_u64 a.next_sequence_number;
      },
      true,
    )

abbrev pub cancels_at :
    AbstractBook → String → Option (OrderSide × RestingOrder) → AbstractBook × Bool
cancels_at a k none = (a, false)
cancels_at a k (some (s, o)) = (with_side s (remove k (side_of s a)) a, true)

abbrev pub fills_at :
    AbstractBook → String → Double → Option (OrderSide × RestingOrder) → AbstractBook × Bool
fills_at a k executed none = (a, false)
fills_at a k executed (some (s, o)) =
    if ltb_ℤ (o.remaining_quantity +ℤ quantity_tolerance) executed
    then (a, false)
    else if leb_ℤ (remaining_after o executed) quantity_tolerance
    then (with_side s (remove k (side_of s a)) a, true)
    else (with_side s (replace k (reduced_order o executed) (side_of s a)) a, true)

-- The three calls, with their answers.
unfoldable pub abstract_call : AbstractBook → Call → AbstractBook × Bool
unfolding held admitted
abstract_call a (adds r k c q) = adds_at a r k c q (admitted a r k c q)
abstract_call a (cancels k) = cancels_at a k (held k a)
abstract_call a (fills k x) =
    if leb_ℤ x quantity_tolerance then (a, false) else fills_at a k x (held k a)

-- The abstract view of a book.
abbrev pub entries : Double → List RestingOrder → Ladder
entries p [] = []
entries p (o ∷ q) = (p, o) ∷ entries p q

unfoldable pub ladder : Levels → Ladder
ladder [] = []
ladder ((p, q) ∷ ls) = entries p q ++ ladder ls

unfoldable pub view : OrderBook → AbstractBook
view b = record {
  instrument = b.instrument;
  bids = ladder b.bid_levels;
  asks = ladder b.ask_levels;
  next_sequence_number = b.next_sequence_number;
}
