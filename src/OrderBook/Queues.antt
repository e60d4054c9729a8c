-- ===== src/OrderBook/Queues.antt =====
-- The loops over the deque of one price level (src/execution/order_book.cpp): which order they hit,
-- and what they do to the queue.
use mathlib.Core.Option
use wall.Core.{Double, OrderSide, quantity_tolerance}
use wall.OrderBook.PriceLevels.{
  QueueOutcome, RestingOrder, erase_from_queue, fill_order, fill_queue, find_in_queue, push_front,
  queue_consumed, queue_reduced, queue_refused, remaining_after,
}
use wall.OrderBook.Stocked.{Belongs}
use wall.OrderBook.Weigh.{Weight, is_id, weigh_queue}
use wall.Prelude.{
  All, Bool-cases, List, String, [], ap, arith, false, if_neg, if_pos, inl, inr, none, refl, some,
  some_inj, subst, sym, true, ◌+◌, ◌<◌, ◌∙◌, ◌∷◌, ◌≡◌, ◌⊎◌,
}
use wall.Prelude.Int.{leb_ℤ, ltb_ℤ, ◌+ℤ◌, ◌<ℤ◌}
use wall.Prelude.Text.{dec_str}

-- The queue `q'` is `q` without the order `o`, which has the id `k`.
pub record Removes (k : String) (o : RestingOrder) (q q' : List RestingOrder) : Type 0 where
  pub id_is : o.order_id ≡ k
  pub weight : (f : Weight) (p : Double) → weigh_queue f p q' + f p o ≡ weigh_queue f p q
  pub belong :
      (s : OrderSide) (p : Double) → All (Belongs s p) q → Belongs s p o × All (Belongs s p) q'

Removes-head : (o : RestingOrder) (q : List RestingOrder) → Removes o.order_id o (o ∷ q) q
unfolding weigh_queue
Removes-head o q = record { id_is = refl; weight = λ f p. omega arith; belong = λ s p h. h }

Removes-cons :
    (k : String) (o x : RestingOrder) (q q' : List RestingOrder)
    → Removes k o q q'
    → Removes k o (x ∷ q) (x ∷ q')
unfolding weigh_queue
Removes-cons k o x q q' r = record {
  id_is = r.id_is;
  weight = λ f p. omega (arith, r.weight f p);
  belong = λ s p h. ((r.belong s p h.1).0, (h.0, (r.belong s p h.1).1));
}

module _ (k : String) (x : RestingOrder) (q : List RestingOrder) where
  find_in_queue-hit : x.order_id ≡ k → find_in_queue k (x ∷ q) ≡ some x
  unfolding find_in_queue
  find_in_queue-hit h = ground arith

  find_in_queue-miss : ¬ (x.order_id ≡ k) → find_in_queue k (x ∷ q) ≡ find_in_queue k q
  unfolding find_in_queue
  find_in_queue-miss h = ground arith

  erase_from_queue-hit : x.order_id ≡ k → erase_from_queue k (x ∷ q) ≡ some q
  unfolding erase_from_queue
  erase_from_queue-hit h = ground arith

  erase_from_queue-miss :
      ¬ (x.order_id ≡ k) → erase_from_queue k (x ∷ q) ≡ Option.map (◌∷◌ x) (erase_from_queue k q)
  unfolding erase_from_queue
  erase_from_queue-miss h = ground arith

-- The two searches agree: `erase_from_queue` removes the order that `find_in_queue` finds.
pub erase_from_queue_cases :
    (k : String) (q : List RestingOrder)
    → ((find_in_queue k q ≡ none) × (erase_from_queue k q ≡ none))
      ⊎ ((o : RestingOrder) × (q' : List RestingOrder) × (find_in_queue k q ≡ some o)
          × (erase_from_queue k q ≡ some q')
          × Removes k o q q')
unfolding find_in_queue erase_from_queue
erase_from_queue_cases k [] = inl (refl, refl)
erase_from_queue_cases k (x ∷ q) = elim (dec_str x.order_id k) [
  | yes hit ↦ inr (
    x,
    q,
    find_in_queue-hit k x q hit,
    erase_from_queue-hit k x q hit,
    subst (λ j. Removes j x (x ∷ q) q) hit (Removes-head x q),
  )
  | no miss ↦ elim (erase_from_queue_cases k q) [
    | inl (f, e) ↦ inl (
      find_in_queue-miss k x q miss ∙ f,
      erase_from_queue-miss k x q miss ∙ ap (Option.map (◌∷◌ x)) e,
    )
    | inr (o, q', f, e, r) ↦ inr (
      o,
      x ∷ q',
      find_in_queue-miss k x q miss ∙ f,
      erase_from_queue-miss k x q miss ∙ ap (Option.map (◌∷◌ x)) e,
      Removes-cons k o x q q' r,
    )
  ]
]

-- The order as a partial fill leaves it.
abbrev pub reduced_order : RestingOrder → Double → RestingOrder
reduced_order o executed = record o { remaining_quantity = remaining_after o executed }

-- The queue `q'` is `q` with a fill taken off the order `o`, which has the id `k`.
pub record Reduces (k : String) (o : RestingOrder) (executed : Double) (q q' : List RestingOrder)
    : Type 0 where
  pub id_is : o.order_id ≡ k
  pub weight :
      (f : Weight) (p : Double)
      → weigh_queue f p q' + f p o ≡ weigh_queue f p q + f p (reduced_order o executed)
  pub belong :
      (s : OrderSide) (p : Double)
      → All (Belongs s p) q
      → quantity_tolerance <ℤ remaining_after o executed
      → Belongs s p o × All (Belongs s p) q'

Reduces-head :
    (o : RestingOrder) (executed : Double) (q : List RestingOrder)
    → Reduces o.order_id o executed (o ∷ q) (reduced_order o executed ∷ q)
unfolding weigh_queue
Reduces-head o executed q = record {
  id_is = refl;
  weight = λ f p. omega arith;
  belong =
      λ s p h l. (h.0, (record { side_is = h.0.side_is; price_is = h.0.price_is; left = l }, h.1));
}

Reduces-cons :
    (k : String) (o x : RestingOrder) (executed : Double) (q q' : List RestingOrder)
    → Reduces k o executed q q'
    → Reduces k o executed (x ∷ q) (x ∷ q')
unfolding weigh_queue
Reduces-cons k o x executed q q' r = record {
  id_is = r.id_is;
  weight = λ f p. omega (arith, r.weight f p);
  belong = λ s p h l. ((r.belong s p h.1 l).0, (h.0, (r.belong s p h.1 l).1));
}

-- What a fill does to the order that it finds.
pub data Fills (k : String) (executed : Double) (q : List RestingOrder) (o : RestingOrder)
    (r : QueueOutcome) : Type 0 where
  too_much :
      ltb_ℤ (o.remaining_quantity +ℤ quantity_tolerance) executed ≡ true
      → r ≡ queue_refused
      → Fills k executed q o r
  takes_all :
      (q' : List RestingOrder)
      → ltb_ℤ (o.remaining_quantity +ℤ quantity_tolerance) executed ≡ false
      → leb_ℤ (remaining_after o executed) quantity_tolerance ≡ true
      → r ≡ queue_consumed q'
      → Removes k o q q'
      → Fills k executed q o r
  takes_part :
      (q' : List RestingOrder)
      → ltb_ℤ (o.remaining_quantity +ℤ quantity_tolerance) executed ≡ false
      → leb_ℤ (remaining_after o executed) quantity_tolerance ≡ false
      → r ≡ queue_reduced q'
      → Reduces k o executed q q'
      → Fills k executed q o r

Fills-head :
    (o : RestingOrder) (executed : Double) (q : List RestingOrder)
    → Fills o.order_id executed (o ∷ q) o (fill_order o q executed)
Fills-head o executed q =
    elim (Bool-cases (ltb_ℤ (o.remaining_quantity +ℤ quantity_tolerance) executed)) [
      | inl much ↦ too_much much (rw much)
      | inr fits ↦ elim (Bool-cases (leb_ℤ (remaining_after o executed) quantity_tolerance)) [
        | inl all ↦ takes_all q fits all (rw (fits, all)) (Removes-head o q)
        | inr part ↦
            takes_part (reduced_order o executed ∷ q) fits part (rw (fits, part))
              (Reduces-head o executed q)
      ]
    ]

Fills-cons :
    (k : String) (executed : Double) (x : RestingOrder) (q : List RestingOrder) (o : RestingOrder)
    (r : QueueOutcome)
    → Fills k executed q o r
    → Fills k executed (x ∷ q) o (push_front x r)
Fills-cons k executed x q o r (too_much m e) = too_much m (ap (push_front x) e)
Fills-cons k executed x q o r (takes_all q' a b e w) =
    takes_all (x ∷ q') a b (ap (push_front x) e) (Removes-cons k o x q q' w)
Fills-cons k executed x q o r (takes_part q' a b e w) =
    takes_part (x ∷ q') a b (ap (push_front x) e) (Reduces-cons k o x executed q q' w)

pub fill_queue-Fills :
    (k : String) (executed : Double) (q : List RestingOrder) (o : RestingOrder)
    → find_in_queue k q ≡ some o
    → Fills k executed q o (fill_queue k executed q)
unfolding find_in_queue fill_queue
fill_queue-Fills k executed [] o h = cc
fill_queue-Fills k executed (x ∷ q) o h = elim (dec_str x.order_id k) [
  | yes hit ↦
      subst (λ y. Fills k executed (x ∷ q) y (fill_queue k executed (x ∷ q)))
        (some_inj (sym (find_in_queue-hit k x q hit) ∙ h))
        (rw (if_pos _ hit) (
          subst (λ j. Fills j executed (x ∷ q) x (fill_order x q executed)) hit
            (Fills-head x executed q)))
  | no miss ↦ rw (if_neg _ miss) (
      Fills-cons k executed x q o _
        (fill_queue-Fills k executed q o (sym (find_in_queue-miss k x q miss) ∙ h)))
]

-- A queue that holds the id is searched with success.
pub find_in_queue-held :
    (k : String) (p : Double) (q : List RestingOrder)
    → 0 < weigh_queue (is_id k) p q
    → (o : RestingOrder) × (find_in_queue k q ≡ some o)
unfolding find_in_queue weigh_queue
find_in_queue-held k p [] h = absurd (omega arith)
find_in_queue-held k p (x ∷ q) h = elim (dec_str x.order_id k) [
  | yes hit ↦ (x, find_in_queue-hit k x q hit)
  | no miss ↦
      let held : 0 < weigh_queue (is_id k) p q = ground arith in
      let (o, e) = find_in_queue-held k p q held in (o, find_in_queue-miss k x q miss ∙ e)
]
