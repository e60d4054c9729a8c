-- ===== src/OrderBook/Ladder/Placing.antt =====
-- `add_order` of src/execution/order_book.cpp puts an order where the abstract book has it.
use wall.Core.{Double, OrderSide}
use wall.OrderBook.Ladder.{Ladder, entries, ladder, place}
use wall.OrderBook.PriceLevels.{Levels, RestingOrder, before, push_order}
use wall.OrderBook.Ranked.{IsRanked, IsRanked-of_after, RankedAfter, before_cases}
use wall.OrderBook.Stocked.{IsStocked}
use wall.Prelude.{Bool-cases, List, [], ap, false, inl, inr, refl, subst, sym, ◌++◌, ◌∙◌, ◌∷◌, ◌≡◌}

place_after :
    (s : OrderSide) (price : Double) (o : RestingOrder) (ls : Levels)
    → RankedAfter s price ls
    → IsStocked s ls
    → place s price o (ladder ls) ≡ (price, o) ∷ ladder ls
unfolding place ladder
place_after s price o [] r h = refl
place_after s price o ((p, []) ∷ ls) r h = absurd (h.0 refl)
place_after s price o ((p, x ∷ q) ∷ ls) r h = rw r.0

-- An order passes a queue whose price it does not come before.
place-entries :
    (s : OrderSide) (price p : Double) (o : RestingOrder) (q : List RestingOrder) (l : Ladder)
    → before s price p ≡ false
    → place s price o (entries p q ++ l) ≡ entries p q ++ place s price o l
unfolding place
place-entries s price p o [] l h = refl
place-entries s price p o (x ∷ q) l h = rw h (ap (◌∷◌ (p, x)) (place-entries s price p o q l h))

entries-snoc :
    (p : Double) (o : RestingOrder) (q : List RestingOrder) (l : Ladder)
    → entries p (q ++ o ∷ []) ++ l ≡ entries p q ++ (p, o) ∷ l
entries-snoc p o [] l = refl
entries-snoc p o (x ∷ q) l = ap (◌∷◌ (p, x)) (entries-snoc p o q l)

-- `levels[price].push_back(order)` is `place`.
pub ladder-push_order :
    (s : OrderSide) (price : Double) (o : RestingOrder) (ls : Levels)
    → IsRanked s ls
    → IsStocked s ls
    → ladder (push_order s price o ls) ≡ place s price o (ladder ls)
unfolding push_order ladder place
ladder-push_order s price o [] r h = refl
ladder-push_order s price o ((p, []) ∷ ls) r h = absurd (h.0 refl)
ladder-push_order s price o ((p, x ∷ q) ∷ ls) r h = elim (Bool-cases (before s price p)) [
  | inl new ↦ rw new refl
  | inr old ↦ rw old (elim (Bool-cases (before s p price)) [
    | inl later ↦ rw later (
        ap (λ l. (p, x) ∷ (entries p q ++ l))
          (ladder-push_order s price o ls (IsRanked-of_after s p ls r) h.2)
        ∙ ap (◌∷◌ (p, x)) (sym (place-entries s price p o q (ladder ls) old)))
    | inr same ↦
        let e = before_cases s price p old same in
        rw same (
          ap (◌∷◌ (p, x)) (
            entries-snoc p o q (ladder ls)
            ∙ ap (λ y. entries p q ++ (y, o) ∷ ladder ls) (sym e)
            ∙ ap (λ l. entries p q ++ l)
                (sym (place_after s price o ls (subst (λ y. RankedAfter s y ls) (sym e) r) h.2))
            ∙ sym (place-entries s price p o q (ladder ls) old)))
  ])
]
