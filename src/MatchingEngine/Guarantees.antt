-- ===== src/MatchingEngine/Guarantees.antt =====
-- The guarantees of `submit` (src/execution/matching_engine.cpp) to the parties of a trade.
use mathlib.Core.Path.{ap₂}
use wall.Core.{Double, ExecutionResult, OrderRequest, OrderSide, buy, quantity_tolerance, sell}
use wall.MatchingEngine.{MatchingEngine, book_for, crosses_at, order_id_of}
use wall.MatchingEngine.Books.{HasValidBooks}
use wall.MatchingEngine.Matches.{MatchEnd, no_cross, no_order, used_up}
use wall.MatchingEngine.Outcome.{Ended, FillFits, total_quantity}
use wall.MatchingEngine.Submit.{Matching, opposite, registered, submit, submit_valid}
use wall.MatchingEngine.SubmitLaws.{
  SubmitCase, accepted, book, book_after, books_after, client_order_id, last, last-Ended, order_id,
  rested-done, rested-more, submit-SubmitCase, total, turned_away,
}
use wall.OrderBook.{OrderBook, levels_of, new_book}
use wall.OrderBook.Added.{add_order-crossings}
use wall.OrderBook.Crossings.{crossings, reaches, reaches-front}
use wall.OrderBook.Front.{front_order-FrontFound, front_order-none}
use wall.OrderBook.PriceLevels.{before}
use wall.OrderBook.Ranked.{IsRanked}
use wall.OrderBook.Validity.{IsValid, other}
use wall.OrderBook.Weigh.{weigh}
use wall.Prelude.{
  All, Bool, Bool-cases, ap, arith, false, inl, inr, refl, some, subst, sym, true, value_or, ◌∙◌,
  ◌∷◌, ◌≡◌, ◌≤◌,
}
use wall.Prelude.Dict.{lookup-insert_self}
use wall.Prelude.Int.{int_laws, ltb_ℤ, neg_part, pos, pos_part, ◌≤ℤ◌}

no_cross-before :
    (s : OrderSide) (p q : Double)
    → crosses_at s (some p) (some q) ≡ false
    → before (opposite s) p q ≡ true
unfolding crosses_at
no_cross-before buy p q h = ground arith
no_cross-before sell p q h = ground arith

-- When the loop is over and something is left, it reaches no order of the other side.
left_out_of_reach :
    (r : OrderRequest) (p : Double) (s : Matching)
    → r.price ≡ some p
    → IsValid s.book
    → ltb_ℤ quantity_tolerance s.remaining_quantity ≡ true
    → MatchEnd r s
    → weigh (reaches (opposite r.side) p) (levels_of (opposite r.side) s.book) ≡ 0
unfolding weigh
left_out_of_reach r p s e v more (used_up h) = absurd (ground arith)
left_out_of_reach r p s e v more (no_order h) = rw (
    front_order-none (opposite r.side) (levels_of (opposite r.side) s.book)
      (v.stocked (opposite r.side)) h)
left_out_of_reach r p s e v more (no_cross o h c) =
    let ff = front_order-FrontFound s.book (opposite r.side) o v h in
    let far : before (opposite r.side) p ff.price ≡ true =
      no_cross-before r.side p ff.price
        (ap₂ (crosses_at r.side) (sym e) (sym ff.belongs.price_is) ∙ c) in
    rw ff.levels_are (
      reaches-front (opposite r.side) p ff.price (o ∷ ff.queue) ff.rest far
        (subst (IsRanked (opposite r.side)) ff.levels_are (v.ranked (opposite r.side))))

opposite-other : (s : OrderSide) → opposite s ≡ other s
opposite-other buy = refl
opposite-other sell = refl

module _ (m : MatchingEngine) (r : OrderRequest) (v : HasValidBooks m) where
  book_after-crossings :
      (p : Double) → r.price ≡ some p → crossings (book_after m r) ≤ crossings (book m r)
  book_after-crossings p e =
      elim (Bool-cases (ltb_ℤ quantity_tolerance (last m r).remaining_quantity)) [
        | inl more ↦ omega (
          arith,
          ended.running.crossings_le,
          ap (λ (x : OrderBook × Bool). crossings x.0)
              (rested-more r (order_id m r) (client_order_id m r) (total m r) (last m r) more),
          add_order-crossings (last m r).book r (order_id m r) (client_order_id m r) (total m r)
              (λ p' e'.
                subst (λ s. weigh (reaches s p') (levels_of s (last m r).book) ≡ 0)
                  (opposite-other r.side)
                  (left_out_of_reach r p' (last m r) e' ended.valid more ended.reason)),
        )
        | inr little ↦ omega (
          arith,
          ended.running.crossings_le,
          ap (λ (x : OrderBook × Bool). crossings x.0)
              (rested-done r (order_id m r) (client_order_id m r) (total m r) (last m r) little),
        )
      ]
    where
      ended : Ended r (order_id m r) (book m r) (last m r)
      ended = last-Ended m r v

-- `submit` leaves the book of its instrument with no more pairs of a bid and an ask that could
-- trade than there were: an uncrossed book stays uncrossed. The engine's books are to be valid.
pub submit-crossings :
    (m : MatchingEngine) (r : OrderRequest)
    → HasValidBooks m
    → crossings (book_for (submit m r).0.books r.instrument)
      ≤ crossings (book_for m.books r.instrument)
submit-crossings m r v = by_case (submit-SubmitCase m r)
  where
    by_case :
        SubmitCase m r
        → crossings (book_for (submit m r).0.books r.instrument)
          ≤ crossings (book_for m.books r.instrument)
    by_case (turned_away reason why e) = omega (
      arith,
      ap (λ (x : MatchingEngine × ExecutionResult). crossings (book_for x.0.books r.instrument)) e,
    )
    by_case (accepted p l e above more s) = omega (
      arith,
      book_after-crossings m r v p e,
      ap (λ x. crossings (book_for x r.instrument)) (books_after m r s),
      ap (λ x. crossings (value_or x (new_book r.instrument)))
          (lookup-insert_self r.instrument.instrument_id (book_after m r) m.books),
    )

pub fills_after :
    (m : MatchingEngine) (r : OrderRequest)
    → submit m r ≡ submit_valid (registered m r) r (order_id m r) (client_order_id m r)
    → (submit m r).1.fills ≡ (last m r).fills
unfolding submit_valid
fills_after m r e = ap (λ (x : MatchingEngine × ExecutionResult). x.1.fills) e

-- The fills that `submit` returns are all for the new order, on its side and instrument, larger
-- than the tolerance and at prices within its limit, and together they take no more than its
-- quantity. The engine's books are to be valid, and the quantity not negative.
pub submit-fills :
    (m : MatchingEngine) (r : OrderRequest)
    → HasValidBooks m
    → pos 0 ≤ℤ r.quantity
    → All (FillFits r (order_id_of m.next_order_id)) (submit m r).1.fills
      × (total_quantity (submit m r).1.fills ≤ℤ r.quantity)
unfolding total_quantity
submit-fills m r v q = by_case (submit-SubmitCase m r)
  where
    by_case :
        SubmitCase m r
        → All (FillFits r (order_id_of m.next_order_id)) (submit m r).1.fills
          × (total_quantity (submit m r).1.fills ≤ℤ r.quantity)
    by_case (turned_away reason why e) = rw e (tt, omega arith)
    by_case (accepted p l e above more s) =
        let run = (last-Ended m r v).running in
        let fs = fills_after m r s in
        (
          subst (All (FillFits r (order_id m r))) (sym fs) run.fit,
          subst (λ x. total_quantity x ≤ℤ r.quantity) (sym fs)
              (omega (
                int_laws,
                run.left_nonneg q,
                ap pos_part run.conserved,
                ap neg_part run.conserved,
              )),
        )
