-- ===== src/OrderBook/Ladder/Filling.antt =====
-- `apply_fill` of src/execution/order_book.cpp on the abstract list: an order that is used up goes,
-- and one that is not stays in its place with less.
use wall.Core.{Double, OrderSide}
use wall.OrderBook.Ladder.{Ladder, entries, ladder, remove, replace}
use wall.OrderBook.Ladder.Taking.{Once, edit-ladder, remove-Passes, replace-Passes}
use wall.OrderBook.PriceLevels.{
  FillOutcome, Levels, QueueOutcome, RestingOrder, apply_fill_to_levels, consumed, fill_order,
  fill_queue, find_in_queue, level_find, push_front, queue_consumed, queue_reduced, queue_refused,
  reduced,
}
use wall.OrderBook.Queues.{reduced_order}
use wall.OrderBook.Replace.{apply_fill_to_levels-replace, replace_queue, replaced}
use wall.Prelude.{
  List, String, [], ap, arith, if_neg, if_pos, refl, some, some_inj, sym, ◌++◌, ◌∙◌, ◌∷◌, ◌≡◌,
}
use wall.Prelude.Text.{dec_str}

module _ (k : String) (executed : Double) where
  consumed-hit :
      (p : Double) (q q' : List RestingOrder) (l : Ladder)
      → fill_queue k executed q ≡ queue_consumed q'
      → remove k (entries p q ++ l) ≡ entries p q' ++ l
  unfolding remove fill_queue
  consumed-hit p [] q' l h = ground arith
  consumed-hit p (x ∷ q) q' l h = elim (dec_str x.order_id k) [
    | yes hit ↦ rw (if_pos _ hit) (consumed_head x q q' (rw (if_pos _ hit) at h))
    | no miss ↦
        let (q2, e, same) = pushed x q' (fill_queue k executed q) (rw (if_neg _ miss) at h) in
        rw (if_neg _ miss, same) (ap (◌∷◌ (p, x)) (consumed-hit p q q2 l e))
  ]
    where
      consumed_head :
          (x : RestingOrder) (q q' : List RestingOrder)
          → fill_order x q executed ≡ queue_consumed q'
          → entries p q ++ l ≡ entries p q' ++ l
      consumed_head x q q' h = ground arith

      pushed :
          (x : RestingOrder) (q' : List RestingOrder) (r : QueueOutcome)
          → push_front x r ≡ queue_consumed q'
          → (q2 : List RestingOrder) × (r ≡ queue_consumed q2) × (q' ≡ x ∷ q2)
      pushed x q' queue_refused h = ground arith
      pushed x q' (queue_reduced q2) h = ground arith
      pushed x q' (queue_consumed q2) h = (q2, refl, ground arith)

  reduced-hit :
      (p : Double) (q q' : List RestingOrder) (o : RestingOrder) (l : Ladder)
      → find_in_queue k q ≡ some o
      → fill_queue k executed q ≡ queue_reduced q'
      → replace k (reduced_order o executed) (entries p q ++ l) ≡ entries p q' ++ l
  unfolding replace fill_queue find_in_queue
  reduced-hit p [] q' o l f h = ground arith
  reduced-hit p (x ∷ q) q' o l f h = elim (dec_str x.order_id k) [
    | yes hit ↦
        let same : x ≡ o = some_inj (rw (if_pos _ hit) at f) in
        let e : q' ≡ reduced_order x executed ∷ q = reduced_head x q q' (rw (if_pos _ hit) at h) in
        rw (if_pos _ hit, e, same) refl
    | no miss ↦
        let (q2, e, same) = pushed x q' (fill_queue k executed q) (rw (if_neg _ miss) at h) in
        rw (if_neg _ miss, same)
          (ap (◌∷◌ (p, x)) (reduced-hit p q q2 o l (rw (if_neg _ miss) at f) e))
  ]
    where
      reduced_head :
          (x : RestingOrder) (q q' : List RestingOrder)
          → fill_order x q executed ≡ queue_reduced q'
          → q' ≡ reduced_order x executed ∷ q
      reduced_head x q q' h = ground arith

      pushed :
          (x : RestingOrder) (q' : List RestingOrder) (r : QueueOutcome)
          → push_front x r ≡ queue_reduced q'
          → (q2 : List RestingOrder) × (r ≡ queue_reduced q2) × (q' ≡ x ∷ q2)
      pushed x q' queue_refused h = ground arith
      pushed x q' (queue_consumed q2) h = ground arith
      pushed x q' (queue_reduced q2) h = (q2, refl, ground arith)

  module _ (s : OrderSide) (price : Double) (ls : Levels) (once : Once k s price ls) where
    outcome-queue :
        (r : FillOutcome)
        → apply_fill_to_levels k executed price ls ≡ r
        → replaced price ls (fill_queue k executed (level_find price ls)) ≡ r
    outcome-queue r h = sym (apply_fill_to_levels-replace k executed price ls) ∙ h

    -- An order that a fill uses up leaves the ladder.
    pub remove-ladder_filled :
        (l' : Levels)
        → apply_fill_to_levels k executed price ls ≡ consumed l'
        → remove k (ladder ls) ≡ ladder l'
    remove-ladder_filled l' h =
        by_case (fill_queue k executed (level_find price ls)) refl (outcome-queue (consumed l') h)
      where
        by_case :
            (r : QueueOutcome)
            → fill_queue k executed (level_find price ls) ≡ r
            → replaced price ls r ≡ consumed l'
            → remove k (ladder ls) ≡ ladder l'
        by_case queue_refused e g = ground arith
        by_case (queue_reduced q') e g = ground arith
        by_case (queue_consumed q') e g =
            let same : replace_queue price q' ls ≡ l' = ground arith in
            edit-ladder k s price (remove k) q' (remove-Passes k) ls once
              (λ p l. consumed-hit p (level_find price ls) q' l e)
            ∙ ap ladder same

    -- An order that a fill lessens stays where it is.
    pub replace-ladder_filled :
        (l' : Levels) (o : RestingOrder)
        → find_in_queue k (level_find price ls) ≡ some o
        → apply_fill_to_levels k executed price ls ≡ reduced l'
        → replace k (reduced_order o executed) (ladder ls) ≡ ladder l'
    replace-ladder_filled l' o f h =
        by_case (fill_queue k executed (level_find price ls)) refl (outcome-queue (reduced l') h)
      where
        by_case :
            (r : QueueOutcome)
            → fill_queue k executed (level_find price ls) ≡ r
            → replaced price ls r ≡ reduced l'
            → replace k (reduced_order o executed) (ladder ls) ≡ ladder l'
        by_case queue_refused e g = ground arith
        by_case (queue_consumed q') e g = ground arith
        by_case (queue_reduced q') e g =
            let same : replace_queue price q' ls ≡ l' = ground arith in
            edit-ladder k s price (replace k (reduced_order o executed)) q'
              (replace-Passes k (reduced_order o executed)) ls once
              (λ p l. reduced-hit p (level_find price ls) q' o l f e)
            ∙ ap ladder same
