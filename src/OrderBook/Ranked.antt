-- ===== src/OrderBook/Ranked.antt =====
-- The order of the price levels (src/execution/order_book.cpp): a book's levels are ranked strictly
-- by the comparator of their side.
use wall.Core.{Double, OrderSide, buy, sell}
use wall.OrderBook.PriceLevels.{Levels, RestingOrder, before, level_find, push_order, with_queue}
use wall.Prelude.{Bool-cases, List, [], arith, false, inl, inr, refl, true, ◌∷◌, ◌≡◌}
use wall.Prelude.Int.{eq_of_parts}

-- The levels come strictly after the price, and strictly after one another.
abbrev pub RankedAfter : OrderSide → Double → Levels → Type 0
RankedAfter s p [] = Unit {0}
RankedAfter s p ((p', q) ∷ ls) = (before s p p' ≡ true) × RankedAfter s p' ls

abbrev pub IsRanked : OrderSide → Levels → Type 0
IsRanked s [] = Unit {0}
IsRanked s ((p, q) ∷ ls) = RankedAfter s p ls

pub before_trans :
    (s : OrderSide) (a b c : Double)
    → before s a b ≡ true
    → before s b c ≡ true
    → before s a c ≡ true
before_trans buy a b c h k = ground arith
before_trans sell a b c h k = ground arith

pub before_cases :
    (s : OrderSide) (a b : Double) → before s a b ≡ false → before s b a ≡ false → a ≡ b
before_cases buy a b h k = ground (arith, eq_of_parts a b)
before_cases sell a b h k = ground (arith, eq_of_parts a b)

pub RankedAfter-weaken :
    (s : OrderSide) (a b : Double) (ls : Levels)
    → before s a b ≡ true
    → RankedAfter s b ls
    → RankedAfter s a ls
RankedAfter-weaken s a b [] h r = tt
RankedAfter-weaken s a b ((p, q) ∷ ls) h r = (before_trans s a b p h r.0, r.1)

pub IsRanked-of_after :
    (s : OrderSide) (p : Double) (ls : Levels) → RankedAfter s p ls → IsRanked s ls
IsRanked-of_after s p [] r = tt
IsRanked-of_after s p ((p', q) ∷ ls) r = r.1

pub push_order-RankedAfter :
    (s : OrderSide) (price : Double) (o : RestingOrder) (p : Double) (ls : Levels)
    → before s p price ≡ true
    → RankedAfter s p ls
    → RankedAfter s p (push_order s price o ls)
unfolding push_order
push_order-RankedAfter s price o p [] h r = (h, tt)
push_order-RankedAfter s price o p ((p', q) ∷ ls) h r = elim (Bool-cases (before s price p')) [
  | inl new ↦ rw new (h, (new, r.1))
  | inr old ↦ rw old (elim (Bool-cases (before s p' price)) [
    | inl later ↦ rw later (r.0, push_order-RankedAfter s price o p' ls later r.1)
    | inr same ↦ rw same (r.0, r.1)
  ])
]

pub push_order-IsRanked :
    (s : OrderSide) (price : Double) (o : RestingOrder) (ls : Levels)
    → IsRanked s ls
    → IsRanked s (push_order s price o ls)
unfolding push_order
push_order-IsRanked s price o [] r = tt
push_order-IsRanked s price o ((p, q) ∷ ls) r = elim (Bool-cases (before s price p)) [
  | inl new ↦ rw new (new, r)
  | inr old ↦ rw old (elim (Bool-cases (before s p price)) [
    | inl later ↦ rw later (push_order-RankedAfter s price o p ls later r)
    | inr same ↦ rw same r
  ])
]

-- Levels after a price do not hold it.
pub level_find_after :
    (s : OrderSide) (price : Double) (ls : Levels)
    → RankedAfter s price ls
    → level_find price ls ≡ []
unfolding level_find
level_find_after s price [] r = refl
level_find_after buy price ((p, q) ∷ ls) r =
    ground (arith, level_find_after buy price ls (RankedAfter-weaken buy price p ls r.0 r.1))
level_find_after sell price ((p, q) ∷ ls) r =
    ground (arith, level_find_after sell price ls (RankedAfter-weaken sell price p ls r.0 r.1))

-- A level that is emptied goes, and the rest stays in order.
pub with_queue-RankedAfter :
    (s : OrderSide) (p p' : Double) (q : List RestingOrder) (ls : Levels)
    → before s p p' ≡ true
    → RankedAfter s p' ls
    → RankedAfter s p (with_queue p' q ls)
with_queue-RankedAfter s p p' [] ls h r = RankedAfter-weaken s p p' ls h r
with_queue-RankedAfter s p p' (o ∷ q) ls h r = (h, r)

pub with_queue-IsRanked :
    (s : OrderSide) (p : Double) (q : List RestingOrder) (ls : Levels)
    → RankedAfter s p ls
    → IsRanked s (with_queue p q ls)
with_queue-IsRanked s p [] ls r = IsRanked-of_after s p ls r
with_queue-IsRanked s p (o ∷ q) ls r = r
