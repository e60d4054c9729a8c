-- ===== src/Portfolio/Balances.antt =====
-- The balances of src/portfolio/portfolio_service.cpp after a fill.
use wall.Core.{BalanceSnapshot, FillEvent, OrderSide}
use wall.Core.Arithmetic.{Arithmetic}
use wall.Portfolio.{
  PortfolioService, apply_fill, apply_fill_to_balances, at_balance, blank_balance, credited,
  debited, get_balance, made_available, named, settled,
}
use wall.Prelude.{String, ap, refl, sym, value_or, ◌∙◌, ◌≡◌, ◌≢◌}
use wall.Prelude.Dict.{Dict, lookup, lookup-insert_ne, lookup-insert_self}
use wall.Prelude.Int.{◌+ℤ◌, ◌-ℤ◌}

abbrev pub balance_in : Dict BalanceSnapshot → String → BalanceSnapshot
balance_in d asset = value_or (lookup asset d) (blank_balance asset)

at_balance_self :
    (k : String) (g : BalanceSnapshot → BalanceSnapshot) (d : Dict BalanceSnapshot)
    → balance_in (at_balance k g d) k ≡ g (balance_in d k)
at_balance_self k g d =
    ap (λ o. value_or o (blank_balance k)) (lookup-insert_self k (g (balance_in d k)) d)

at_balance_ne :
    (j k : String) (g : BalanceSnapshot → BalanceSnapshot) (d : Dict BalanceSnapshot)
    → j ≢ k
    → balance_in (at_balance k g d) j ≡ balance_in d j
at_balance_ne j k g d h =
    ap (λ o. value_or o (blank_balance j)) (lookup-insert_ne j k (g (balance_in d k)) d h)

-- A step on the balance `base`, then one on `quote`.
abbrev both :
    String
    → String
    → (BalanceSnapshot → BalanceSnapshot)
    → (BalanceSnapshot → BalanceSnapshot)
    → Dict BalanceSnapshot
    → Dict BalanceSnapshot
both base quote g h d = at_balance quote h (at_balance base g d)

both-base :
    (base quote : String) (g h : BalanceSnapshot → BalanceSnapshot) (d : Dict BalanceSnapshot)
    → base ≢ quote
    → balance_in (both base quote g h d) base ≡ g (balance_in d base)
both-base base quote g h d ne =
    at_balance_ne base quote h (at_balance base g d) ne ∙ at_balance_self base g d

both-quote :
    (base quote : String) (g h : BalanceSnapshot → BalanceSnapshot) (d : Dict BalanceSnapshot)
    → base ≢ quote
    → balance_in (both base quote g h d) quote ≡ h (balance_in d quote)
both-quote base quote g h d ne =
    at_balance_self quote h (at_balance base g d)
    ∙ ap h (at_balance_ne quote base g d (λ e. ne (sym e)))

both-other :
    (k base quote : String) (g h : BalanceSnapshot → BalanceSnapshot) (d : Dict BalanceSnapshot)
    → k ≢ base
    → k ≢ quote
    → balance_in (both base quote g h d) k ≡ balance_in d k
both-other k base quote g h d nb nq =
    at_balance_ne k quote h (at_balance base g d) nq ∙ at_balance_ne k base g d nb

-- What the side of a fill does to its base and to its quote balance.
abbrev pub base_moved : FillEvent → OrderSide → BalanceSnapshot → BalanceSnapshot
base_moved f OrderSide.buy b = credited f.quantity b
base_moved f OrderSide.sell b = debited f.quantity b

abbrev pub quote_moved : Arithmetic → FillEvent → OrderSide → BalanceSnapshot → BalanceSnapshot
quote_moved A f OrderSide.buy b = debited (A.times f.quantity f.price +ℤ f.fee) b
quote_moved A f OrderSide.sell b = credited (A.times f.quantity f.price -ℤ f.fee) b

abbrev pub base_after : FillEvent → BalanceSnapshot → BalanceSnapshot
base_after f b = made_available (base_moved f f.side (named f.instrument.base_asset b))

abbrev pub quote_after : Arithmetic → FillEvent → BalanceSnapshot → BalanceSnapshot
quote_after A f b = made_available (quote_moved A f f.side (named f.instrument.quote_asset b))

settled-both :
    (A : Arithmetic) (f : FillEvent) (side : OrderSide) (d : Dict BalanceSnapshot)
    → settled A f side d
      ≡ both f.instrument.base_asset f.instrument.quote_asset
          (base_moved f side)
          (quote_moved A f side)
          d
settled-both A f OrderSide.buy d = refl
settled-both A f OrderSide.sell d = refl

-- `apply_fill_to_balances` is three pairs of steps.
paired :
    (A : Arithmetic) (d : Dict BalanceSnapshot) (f : FillEvent)
    → apply_fill_to_balances A d f
      ≡ both f.instrument.base_asset f.instrument.quote_asset made_available made_available (
          both f.instrument.base_asset f.instrument.quote_asset
            (base_moved f f.side)
            (quote_moved A f f.side)
            (both f.instrument.base_asset f.instrument.quote_asset
              (named f.instrument.base_asset)
              (named f.instrument.quote_asset)
              d))
unfolding apply_fill_to_balances
paired A d f =
    ap (both f.instrument.base_asset f.instrument.quote_asset made_available made_available) (
      settled-both A f f.side (
        both f.instrument.base_asset f.instrument.quote_asset (named f.instrument.base_asset)
          (named f.instrument.quote_asset) d))

module _ (base quote : String) (ne : base ≢ quote)
    (g1 g2 g3 h1 h2 h3 : BalanceSnapshot → BalanceSnapshot) (d : Dict BalanceSnapshot) where
  thrice-base :
      balance_in (both base quote g3 h3 (both base quote g2 h2 (both base quote g1 h1 d))) base
      ≡ g3 (g2 (g1 (balance_in d base)))
  thrice-base =
      both-base base quote g3 h3 (both base quote g2 h2 (both base quote g1 h1 d)) ne
      ∙ ap g3 (
          both-base base quote g2 h2 (both base quote g1 h1 d) ne
          ∙ ap g2 (both-base base quote g1 h1 d ne))

  thrice-quote :
      balance_in (both base quote g3 h3 (both base quote g2 h2 (both base quote g1 h1 d))) quote
      ≡ h3 (h2 (h1 (balance_in d quote)))
  thrice-quote =
      both-quote base quote g3 h3 (both base quote g2 h2 (both base quote g1 h1 d)) ne
      ∙ ap h3 (
          both-quote base quote g2 h2 (both base quote g1 h1 d) ne
          ∙ ap h2 (both-quote base quote g1 h1 d ne))

  thrice-other :
      (k : String)
      → k ≢ base
      → k ≢ quote
      → balance_in (both base quote g3 h3 (both base quote g2 h2 (both base quote g1 h1 d))) k
        ≡ balance_in d k
  thrice-other k nb nq =
      both-other k base quote g3 h3 (both base quote g2 h2 (both base quote g1 h1 d)) nb nq
      ∙ both-other k base quote g2 h2 (both base quote g1 h1 d) nb nq
      ∙ both-other k base quote g1 h1 d nb nq

-- A fill whose base and quote asset differ pays the quantity into the base balance and takes the
-- notional with the fee from the quote balance when it buys, and takes the quantity and pays the
-- notional less the fee when it sells; the whole of both is then available, and the balances of the
-- other assets are as they were.
pub apply_fill-balances :
    (A : Arithmetic) (p : PortfolioService) (f : FillEvent)
    → f.instrument.base_asset ≢ f.instrument.quote_asset
    → (get_balance (apply_fill A p f) f.instrument.base_asset
        ≡ base_after f (get_balance p f.instrument.base_asset))
      × (get_balance (apply_fill A p f) f.instrument.quote_asset
          ≡ quote_after A f (get_balance p f.instrument.quote_asset))
      × ((k : String)
          → k ≢ f.instrument.base_asset
          → k ≢ f.instrument.quote_asset
          → get_balance (apply_fill A p f) k ≡ get_balance p k)
unfolding apply_fill get_balance
apply_fill-balances A p f ne =
    let g1 = named f.instrument.base_asset in
    let h1 = named f.instrument.quote_asset in
    let g2 = base_moved f f.side in
    let h2 = quote_moved A f f.side in
    let g3 = made_available in
    let base = f.instrument.base_asset in
    let quote = f.instrument.quote_asset in
    (
      ap (λ d. balance_in d base) (paired A p.balances f)
          ∙ thrice-base base quote ne g1 g2 g3 h1 h2 g3 p.balances,
      ap (λ d. balance_in d quote) (paired A p.balances f)
          ∙ thrice-quote base quote ne g1 g2 g3 h1 h2 g3 p.balances,
      λ k nb nq.
          ap (λ d. balance_in d k) (paired A p.balances f)
          ∙ thrice-other base quote ne g1 g2 g3 h1 h2 g3 p.balances k nb nq,
    )
