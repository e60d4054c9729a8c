-- ===== src/OrderBook/Replace.antt =====
-- What `erase_from_levels` and `apply_fill_to_levels` of src/execution/order_book.cpp share: they
-- change the queue of the order's price, and drop the level if that leaves it empty.
use mathlib.Core.Option
use wall.Core.{Double, OrderSide}
use wall.OrderBook.PriceLevels.{
  FillOutcome, Levels, QueueOutcome, RestingOrder, apply_fill_to_levels, at_level, consumed,
  erase_from_levels, erase_from_queue, fill_queue, level_find, push_level, queue_consumed,
  queue_reduced, queue_refused, reduced, refused, with_queue,
}
use wall.OrderBook.Ranked.{IsRanked, RankedAfter, with_queue-IsRanked, with_queue-RankedAfter}
use wall.Prelude.{List, String, [], ap, arith, if◌then◌else◌, inl, inr, refl, ◌∙◌, ◌∷◌, ◌≡◌, ◌≢◌}
use wall.Prelude.Int.{ltb_ℤ, ℤ_cases}

unfoldable pub replace_queue : Double → List RestingOrder → Levels → Levels
replace_queue price q' [] = []
replace_queue price q' ((p, q) ∷ ls) =
    if ltb_ℤ p price
    then (p, q) ∷ replace_queue price q' ls
    else if ltb_ℤ price p
    then (p, q) ∷ replace_queue price q' ls
    else with_queue p q' ls

pub erase_from_levels-replace :
    (order_id : String) (price : Double) (ls : Levels)
    → erase_from_levels order_id price ls
      ≡ Option.map
          (λ q'. replace_queue price q' ls)
          (erase_from_queue order_id (level_find price ls))
unfolding erase_from_levels erase_from_queue level_find replace_queue
erase_from_levels-replace order_id price [] = refl
erase_from_levels-replace order_id price ((p, q) ∷ ls) =
    ground (arith, erase_from_levels-replace order_id price ls)

abbrev pub replaced : Double → Levels → QueueOutcome → FillOutcome
replaced price ls queue_refused = refused
replaced price ls (queue_reduced q') = reduced (replace_queue price q' ls)
replaced price ls (queue_consumed q') = consumed (replace_queue price q' ls)

-- A fill that leaves the order in its queue leaves the queue inhabited.
pub fill_queue-reduced_inhabited :
    (order_id : String) (executed : Double) (q q' : List RestingOrder)
    → fill_queue order_id executed q ≡ queue_reduced q'
    → q' ≢ []
unfolding fill_queue
fill_queue-reduced_inhabited order_id executed [] q' h = ground arith
fill_queue-reduced_inhabited order_id executed (o ∷ q) q' h = ground arith

at_level-replaced :
    (price p : Double) (q : List RestingOrder) (ls : Levels) (r : QueueOutcome)
    → ((q' : List RestingOrder) → r ≡ queue_reduced q' → q' ≢ [])
    → ((q' : List RestingOrder) → replace_queue price q' ((p, q) ∷ ls) ≡ with_queue p q' ls)
    → at_level p ls r ≡ replaced price ((p, q) ∷ ls) r
at_level-replaced price p q ls queue_refused h e = refl
at_level-replaced price p q ls (queue_consumed q') h e = rw (e q')
at_level-replaced price p q ls (queue_reduced []) h e = absurd (h [] refl refl)
at_level-replaced price p q ls (queue_reduced (o ∷ q')) h e = rw (e (o ∷ q'))

push_level-replaced :
    (price p : Double) (q : List RestingOrder) (ls : Levels) (r : QueueOutcome)
    → (replace : (q' : List RestingOrder)
        → replace_queue price q' ((p, q) ∷ ls) ≡ (p, q) ∷ replace_queue price q' ls)
    → push_level (p, q) (replaced price ls r) ≡ replaced price ((p, q) ∷ ls) r
push_level-replaced price p q ls queue_refused e = refl
push_level-replaced price p q ls (queue_consumed q') e = rw (e q')
push_level-replaced price p q ls (queue_reduced q') e = rw (e q')

pub apply_fill_to_levels-replace :
    (order_id : String) (executed price : Double) (ls : Levels)
    → apply_fill_to_levels order_id executed price ls
      ≡ replaced price ls (fill_queue order_id executed (level_find price ls))
unfolding apply_fill_to_levels fill_queue level_find replace_queue
apply_fill_to_levels-replace order_id executed price [] = refl
apply_fill_to_levels-replace order_id executed price ((p, q) ∷ ls) = elim (ℤ_cases p price) [
  | inl lt ↦ rw lt (
      ap (push_level (p, q)) (apply_fill_to_levels-replace order_id executed price ls)
      ∙ push_level-replaced price p q ls _ (λ q'. rw lt))
  | inr (inl (ge, gt)) ↦
      rw (ge, gt)
        (ap (push_level (p, q)) (apply_fill_to_levels-replace order_id executed price ls)
          ∙ push_level-replaced price p q ls _ (λ q'. rw (ge, gt)))
  | inr (inr (ge, le, same)) ↦
      rw (ge, le)
        (at_level-replaced price p q ls _ (fill_queue-reduced_inhabited order_id executed q)
          (λ q'. rw (ge, le)))
]

pub replace_queue-RankedAfter :
    (s : OrderSide) (price : Double) (q' : List RestingOrder) (p : Double) (ls : Levels)
    → RankedAfter s p ls
    → RankedAfter s p (replace_queue price q' ls)
unfolding replace_queue
replace_queue-RankedAfter s price q' p [] r = tt
replace_queue-RankedAfter s price q' p ((p', q) ∷ ls) r = elim (ℤ_cases p' price) [
  | inl lt ↦ rw lt (r.0, replace_queue-RankedAfter s price q' p' ls r.1)
  | inr (inl (ge, gt)) ↦ rw (ge, gt) (r.0, replace_queue-RankedAfter s price q' p' ls r.1)
  | inr (inr (ge, le, same)) ↦ rw (ge, le) (with_queue-RankedAfter s p p' q' ls r.0 r.1)
]

-- Replacing a queue keeps the levels ranked.
pub replace_queue-IsRanked :
    (s : OrderSide) (price : Double) (q' : List RestingOrder) (ls : Levels)
    → IsRanked s ls
    → IsRanked s (replace_queue price q' ls)
unfolding replace_queue
replace_queue-IsRanked s price q' [] r = tt
replace_queue-IsRanked s price q' ((p, q) ∷ ls) r = elim (ℤ_cases p price) [
  | inl lt ↦ rw lt (replace_queue-RankedAfter s price q' p ls r)
  | inr (inl (ge, gt)) ↦ rw (ge, gt) (replace_queue-RankedAfter s price q' p ls r)
  | inr (inr (ge, le, same)) ↦ rw (ge, le) (with_queue-IsRanked s p q' ls r)
]
