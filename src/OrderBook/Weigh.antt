-- ===== src/OrderBook/Weigh.antt =====
-- Sums over the resting orders of a side of the book (src/execution/order_book.cpp), for any weight
-- of an order at its price, and how the operations on the levels change them.
use wall.Core.{Double, OrderSide, buy, sell}
use wall.OrderBook.PriceLevels.{Levels, RestingOrder, before, level_find, push_order, with_queue}
use wall.OrderBook.Ranked.{
  IsRanked, IsRanked-of_after, RankedAfter, RankedAfter-weaken, before_cases,
}
use wall.OrderBook.Replace.{replace_queue}
use wall.Prelude.{
  Bool-cases, List, String, [], ap, arith, false, if◌then◌else◌, inl, inr, ite, refl, subst, true,
  ℕ, ◌++◌, ◌+◌, ◌∷◌, ◌≡◌, ◌≢◌,
}
use wall.Prelude.Int.{eqb_ℤ, ℤ_cases}
use wall.Prelude.Text.{dec_str}

abbrev pub Weight : Type 0
Weight = Double → RestingOrder → ℕ

unfoldable pub weigh_queue : Weight → Double → List RestingOrder → ℕ
weigh_queue f p [] = 0
weigh_queue f p (o ∷ q) = f p o + weigh_queue f p q

unfoldable pub weigh : Weight → Levels → ℕ
weigh f [] = 0
weigh f ((p, q) ∷ ls) = weigh_queue f p q + weigh f ls

weigh_queue-snoc :
    (f : Weight) (p : Double) (o : RestingOrder) (q : List RestingOrder)
    → weigh_queue f p (q ++ o ∷ []) ≡ weigh_queue f p q + f p o
unfolding weigh_queue
weigh_queue-snoc f p o [] = omega arith
weigh_queue-snoc f p o (x ∷ q) = omega (arith, weigh_queue-snoc f p o q)

-- A new order adds its weight.
pub weigh-push_order :
    (f : Weight) (s : OrderSide) (price : Double) (o : RestingOrder) (ls : Levels)
    → weigh f (push_order s price o ls) ≡ weigh f ls + f price o
unfolding weigh weigh_queue push_order
weigh-push_order f s price o [] = omega arith
weigh-push_order f s price o ((p, q) ∷ ls) = elim (Bool-cases (before s price p)) [
  | inl new ↦ rw new (omega arith)
  | inr old ↦ rw old (elim (Bool-cases (before s p price)) [
    | inl later ↦ rw later (omega (arith, weigh-push_order f s price o ls))
    | inr same ↦
        rw same (
          omega
            (arith, weigh_queue-snoc f p o q, ap (λ x. f x o) (before_cases s price p old same)))
  ])
]

weigh-with_queue :
    (f : Weight) (p : Double) (q : List RestingOrder) (ls : Levels)
    → weigh f (with_queue p q ls) ≡ weigh_queue f p q + weigh f ls
unfolding weigh weigh_queue
weigh-with_queue f p [] ls = omega arith
weigh-with_queue f p (o ∷ q) ls = refl

-- A queue that is replaced takes its weight away and brings that of the new one.
pub weigh-replace_queue :
    (f : Weight) (price : Double) (q' : List RestingOrder) (ls : Levels)
    → level_find price ls ≢ []
    → weigh f (replace_queue price q' ls) + weigh_queue f price (level_find price ls)
      ≡ weigh f ls + weigh_queue f price q'
unfolding weigh level_find replace_queue
weigh-replace_queue f price q' [] h = absurd (h refl)
weigh-replace_queue f price q' ((p, q) ∷ ls) h = elim (ℤ_cases p price) [
  | inl lt ↦ rw lt (omega (arith, weigh-replace_queue f price q' ls (rw lt at h)))
  | inr (inl (ge, gt)) ↦
      rw (ge, gt) (omega (arith, weigh-replace_queue f price q' ls (rw (ge, gt) at h)))
  | inr (inr (ge, le, same)) ↦ rw (ge, le, same) (omega (arith, weigh-with_queue f price q' ls))
]

-- The orders of an id, and those of an id at a price.
abbrev pub is_id : String → Weight
is_id k p o = ite (dec_str o.order_id k) 1 0

abbrev pub is_at : String → Double → Weight
is_at k price p o = if eqb_ℤ p price then is_id k p o else 0

pub weigh_queue-is_at_off :
    (k : String) (price p : Double) (q : List RestingOrder)
    → eqb_ℤ p price ≡ false
    → weigh_queue (is_at k price) p q ≡ 0
unfolding weigh_queue
weigh_queue-is_at_off k price p [] h = refl
weigh_queue-is_at_off k price p (o ∷ q) h =
    rw h (omega (arith, weigh_queue-is_at_off k price p q h))

weigh_queue-is_at_on :
    (k : String) (price : Double) (q : List RestingOrder)
    → weigh_queue (is_at k price) price q ≡ weigh_queue (is_id k) price q
unfolding weigh_queue
weigh_queue-is_at_on k price [] = refl
weigh_queue-is_at_on k price (o ∷ q) = ground (arith, weigh_queue-is_at_on k price q)

eqb_of_before : (s : OrderSide) (a b : Double) → before s a b ≡ true → eqb_ℤ b a ≡ false
eqb_of_before buy a b h = ground arith
eqb_of_before sell a b h = ground arith

weigh-is_at_after :
    (k : String) (s : OrderSide) (price : Double) (ls : Levels)
    → RankedAfter s price ls
    → weigh (is_at k price) ls ≡ 0
unfolding weigh
weigh-is_at_after k s price [] r = refl
weigh-is_at_after k s price ((p, q) ∷ ls) r = omega (
  arith,
  weigh_queue-is_at_off k price p q (eqb_of_before s price p r.0),
  weigh-is_at_after k s price ls (RankedAfter-weaken s price p ls r.0 r.1),
)

-- In ranked levels the orders of an id at a price are those in the queue of the price.
pub weigh-is_at :
    (k : String) (s : OrderSide) (price : Double) (ls : Levels)
    → IsRanked s ls
    → weigh (is_at k price) ls ≡ weigh_queue (is_id k) price (level_find price ls)
unfolding weigh level_find weigh_queue
weigh-is_at k s price [] r = refl
weigh-is_at k s price ((p, q) ∷ ls) r = elim (ℤ_cases p price) [
  | inl lt ↦ rw lt (
      omega (
        arith,
        weigh_queue-is_at_off k price p q (ground arith),
        weigh-is_at k s price ls (IsRanked-of_after s p ls r),
      ))
  | inr (inl (ge, gt)) ↦
      rw (ge, gt)
        (omega (
          arith,
          weigh_queue-is_at_off k price p q (ground arith),
          weigh-is_at k s price ls (IsRanked-of_after s p ls r),
        ))
  | inr (inr (ge, le, same)) ↦
      rw (ge, le)
        (subst (λ x. weigh_queue (is_at k x) p q + weigh (is_at k x) ls ≡ weigh_queue (is_id k) x q)
          same (omega (arith, weigh_queue-is_at_on k p q, weigh-is_at_after k s p ls r)))
]
