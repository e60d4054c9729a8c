-- ===== src/Portfolio/Positions.antt =====
-- The positions of src/portfolio/portfolio_service.cpp after any fills.
use wall.Core.{Double, FillEvent, Position}
use wall.Core.Arithmetic.{Arithmetic}
use wall.Portfolio.{
  PortfolioService, adds_to, apply_fill, apply_fill_to_position, apply_fills, blank_position,
  closed, get_position, identified, new_portfolio, opened, position_of, set_mark_price,
  signed_fill_quantity, update_unrealized,
}
use wall.Prelude.{
  Bool, List, Option-cases, String, [], ap, arith, false, if◌then◌else◌, inl, inr, ite, some,
  some_inj, subst, sym, true, value_or, ◌∙◌, ◌∷◌, ◌≡◌,
}
use wall.Prelude.Dict.{Dict, lookup, lookup-insert_ne, lookup-insert_self, lookup-modify}
use wall.Prelude.Int.{+ℤ_assoc, +ℤ_zero, pos, ◌+ℤ◌}
use wall.Prelude.Text.{dec_str}

-- The sum of the signed quantities of an instrument's fills.
abbrev pub net_of : String → List FillEvent → Double
net_of k [] = pos 0
net_of k (f ∷ fs) =
    let rest = net_of k fs in
    ite (dec_str k f.instrument.instrument_id) (signed_fill_quantity f +ℤ rest) rest

fill_position-net_quantity :
    (A : Arithmetic) (marks : Dict Double) (s : Position) (f : FillEvent)
    → (apply_fill_to_position A marks (identified s f) f).net_quantity
      ≡ s.net_quantity +ℤ signed_fill_quantity f
unfolding apply_fill_to_position update_unrealized
fill_position-net_quantity A marks s f = ground arith

abbrev position_after : Arithmetic → PortfolioService → FillEvent → Position
position_after A p f =
    apply_fill_to_position A p.mark_prices (identified (position_of p f.instrument.instrument_id) f)
      f

net_quantity-apply_fill :
    (A : Arithmetic) (p : PortfolioService) (f : FillEvent) (k : String)
    → (position_of (apply_fill A p f) k).net_quantity
      ≡ ite
          (dec_str k f.instrument.instrument_id)
          ((position_of p k).net_quantity +ℤ signed_fill_quantity f)
          (position_of p k).net_quantity
unfolding apply_fill
net_quantity-apply_fill A p f k =
    elim (dec_str k f.instrument.instrument_id)
      as (λ e.
        (position_of (apply_fill A p f) k).net_quantity
        ≡ ite e ((position_of p k).net_quantity +ℤ signed_fill_quantity f)
            (position_of p k).net_quantity) [
              | yes e ↦
                  ap (λ j. (position_of (apply_fill A p f) j).net_quantity) e
                  ∙ ap (λ o. (value_or o blank_position).net_quantity)
                      (lookup-insert_self f.instrument.instrument_id (position_after A p f)
                        p.positions)
                  ∙ fill_position-net_quantity A p.mark_prices
                      (position_of p f.instrument.instrument_id) f
                  ∙ ap (λ j. (position_of p j).net_quantity +ℤ signed_fill_quantity f) (sym e)
              | no ne ↦
                  ap (λ o. (value_or o blank_position).net_quantity)
                    (lookup-insert_ne k f.instrument.instrument_id (position_after A p f)
                      p.positions ne)
            ]

-- After any fills the net quantity of an instrument has grown by the bought quantity of its own
-- fills less their sold quantity, whatever the other fills were.
pub apply_fills-net_quantity :
    (A : Arithmetic) (fs : List FillEvent) (p : PortfolioService) (k : String)
    → (position_of (apply_fills A p fs) k).net_quantity
      ≡ (position_of p k).net_quantity +ℤ net_of k fs
unfolding apply_fills
apply_fills-net_quantity A [] p k = +ℤ_zero (position_of p k).net_quantity
apply_fills-net_quantity A (f ∷ fs) p k = ground (
  arith,
  apply_fills-net_quantity A fs (apply_fill A p f) k,
  net_quantity-apply_fill A p f k,
  +ℤ_assoc (position_of p k).net_quantity (signed_fill_quantity f) (net_of k fs),
)

-- A position that is flat has no entry price and no open profit.
abbrev pub FlatIsClean : Position → Type 0
FlatIsClean s =
    s.net_quantity ≡ pos 0 → (s.average_entry_price ≡ pos 0) × (s.unrealized_pnl ≡ pos 0)

update_unrealized-flat :
    (A : Arithmetic) (s : Position) (price : Double)
    → (s.net_quantity ≡ pos 0 → s.average_entry_price ≡ pos 0)
    → FlatIsClean (update_unrealized A s price)
unfolding update_unrealized
update_unrealized-flat A s price h e = (h e, ground arith)

opened-flat :
    (A : Arithmetic) (s : Position) (f : FillEvent)
    → (opened A s f).net_quantity ≡ pos 0
    → (opened A s f).average_entry_price ≡ pos 0
opened-flat A s f e = ground arith

closed-flat :
    (A : Arithmetic) (s : Position) (f : FillEvent)
    → (closed A s f).net_quantity ≡ pos 0
    → (closed A s f).average_entry_price ≡ pos 0
closed-flat A s f e = ground arith

moved-flat :
    (A : Arithmetic) (s : Position) (f : FillEvent) (b : Bool)
    → (if b then opened A s f else closed A s f).net_quantity ≡ pos 0
    → (if b then opened A s f else closed A s f).average_entry_price ≡ pos 0
moved-flat A s f true = opened-flat A s f
moved-flat A s f false = closed-flat A s f

fill_position-FlatIsClean :
    (A : Arithmetic) (marks : Dict Double) (s : Position) (f : FillEvent)
    → FlatIsClean (apply_fill_to_position A marks s f)
unfolding apply_fill_to_position
fill_position-FlatIsClean A marks s f =
    update_unrealized-flat A (if adds_to s f then opened A s f else closed A s f)
      (value_or (lookup f.instrument.instrument_id marks) f.price) (moved-flat A s f (adds_to s f))

-- A call that changes the positions, other than a restore.
pub data PortfolioCall : Type 0 where
  fill_call : FillEvent → PortfolioCall
  mark_call : String → Double → PortfolioCall

abbrev pub call : Arithmetic → PortfolioService → PortfolioCall → PortfolioService
call A p (fill_call f) = apply_fill A p f
call A p (mark_call instrument_id price) = set_mark_price A p instrument_id price

abbrev pub calls : Arithmetic → PortfolioService → List PortfolioCall → PortfolioService
calls A p [] = p
calls A p (c ∷ cs) = calls A (call A p c) cs

abbrev pub IsClean : PortfolioService → Type 0
IsClean p = (k : String) (s : Position) → get_position p k ≡ some s → FlatIsClean s

apply_fill-IsClean :
    (A : Arithmetic) (p : PortfolioService) (f : FillEvent) → IsClean p → IsClean (apply_fill A p f)
unfolding get_position apply_fill
apply_fill-IsClean A p f c k s e = elim (dec_str k f.instrument.instrument_id) [
  | yes q ↦
      subst FlatIsClean
        (some_inj (
          sym (lookup-insert_self f.instrument.instrument_id (position_after A p f) p.positions)
          ∙ ap (λ j. get_position (apply_fill A p f) j) (sym q)
          ∙ e))
        (fill_position-FlatIsClean A p.mark_prices
          (identified (position_of p f.instrument.instrument_id) f) f)
  | no ne ↦ c k s (
      sym (lookup-insert_ne k f.instrument.instrument_id (position_after A p f) p.positions ne) ∙ e)
]

set_mark_price-IsClean :
    (A : Arithmetic) (p : PortfolioService) (i : String) (price : Double)
    → IsClean p
    → IsClean (set_mark_price A p i price)
unfolding get_position set_mark_price
set_mark_price-IsClean A p i price c k s e = elim (Option-cases (lookup k p.positions)) [
  | inl l ↦
      absurd (ground (arith, lookup-modify k i (λ x. update_unrealized A x price) p.positions))
  | inr (x, l) ↦ elim (dec_str k i) [
    | yes q ↦
        subst FlatIsClean
          (some_inj {a = update_unrealized A x price} {b = s}
            (ground (arith, lookup-modify k i (λ x. update_unrealized A x price) p.positions)))
          (update_unrealized-flat A x price (λ z. (c k x l z).0))
    | no ne ↦
        c k s (ground (arith, lookup-modify k i (λ x. update_unrealized A x price) p.positions))
  ]
]

none_held : (k : String) (s : Position) → ¬ (get_position new_portfolio k ≡ some s)
unfolding get_position new_portfolio lookup
none_held k s e = ground arith

kept-IsClean :
    (A : Arithmetic) (cs : List PortfolioCall) (p : PortfolioService)
    → IsClean p
    → IsClean (calls A p cs)
kept-IsClean A [] p c = c
kept-IsClean A (fill_call f ∷ cs) p c =
    kept-IsClean A cs (apply_fill A p f) (apply_fill-IsClean A p f c)
kept-IsClean A (mark_call i price ∷ cs) p c =
    kept-IsClean A cs (set_mark_price A p i price) (set_mark_price-IsClean A p i price c)

-- After any fills and mark prices on a new portfolio, a position whose net quantity is zero has no
-- entry price and no unrealized profit.
pub calls-FlatIsClean :
    (A : Arithmetic) (cs : List PortfolioCall) (k : String) (s : Position)
    → get_position (calls A new_portfolio cs) k ≡ some s
    → FlatIsClean s
unfolding new_portfolio
calls-FlatIsClean A cs = kept-IsClean A cs new_portfolio nothing_held
  where
    nothing_held : IsClean new_portfolio
    nothing_held k s e = absurd (none_held k s e)
