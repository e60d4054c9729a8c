-- ===== src/OrderBook/Stocked.antt =====
-- What holds of each resting order (src/execution/order_book.cpp).
use wall.Core.{Double, OrderSide, quantity_tolerance}
use wall.OrderBook.PriceLevels.{Levels, RestingOrder, before, level_find, push_order, with_queue}
use wall.OrderBook.Ranked.{before_cases}
use wall.OrderBook.Replace.{replace_queue}
use wall.Prelude.{
  All, All-append, Bool-cases, List, [], inl, inr, some, subst, sym, ◌++◌, ◌∷◌, ◌≡◌, ◌≢◌,
}
use wall.Prelude.Int.{ℤ_cases, ◌<ℤ◌}

-- The order belongs on this level, and more than the tolerance of it is left.
pub record Belongs (s : OrderSide) (p : Double) (o : RestingOrder) : Type 0 where
  pub side_is : o.request.side ≡ s
  pub price_is : o.request.price ≡ some p
  pub left : quantity_tolerance <ℤ o.remaining_quantity

-- No level is empty, and every order belongs where it rests.
abbrev pub IsStocked : OrderSide → Levels → Type 0
IsStocked s [] = Unit {0}
IsStocked s ((p, q) ∷ ls) = (q ≢ []) × All (Belongs s p) q × IsStocked s ls

snoc-ne-nil : (o : RestingOrder) (q : List RestingOrder) → q ++ o ∷ [] ≢ []
snoc-ne-nil o [] e = cc
snoc-ne-nil o (x ∷ q) e = cc

pub push_order-IsStocked :
    (s : OrderSide) (price : Double) (o : RestingOrder) (ls : Levels)
    → Belongs s price o
    → IsStocked s ls
    → IsStocked s (push_order s price o ls)
unfolding push_order
push_order-IsStocked s price o [] b h = ((λ e. cc), (b, tt), tt)
push_order-IsStocked s price o ((p, q) ∷ ls) b h = elim (Bool-cases (before s price p)) [
  | inl new ↦ rw new ((λ e. cc), (b, tt), h)
  | inr old ↦ rw old (elim (Bool-cases (before s p price)) [
    | inl later ↦ rw later (h.0, h.1, push_order-IsStocked s price o ls b h.2)
    | inr same ↦ rw same (
      snoc-ne-nil o q,
      All-append (Belongs s p) q (o ∷ []) h.1
          (subst (λ x. Belongs s x o) (before_cases s price p old same) b, tt),
      h.2,
    )
  ])
]

with_queue-IsStocked :
    (s : OrderSide) (p : Double) (q : List RestingOrder) (ls : Levels)
    → All (Belongs s p) q
    → IsStocked s ls
    → IsStocked s (with_queue p q ls)
with_queue-IsStocked s p [] ls b h = h
with_queue-IsStocked s p (o ∷ q) ls b h = ((λ e. cc), b, h)

pub replace_queue-IsStocked :
    (s : OrderSide) (price : Double) (q' : List RestingOrder) (ls : Levels)
    → All (Belongs s price) q'
    → IsStocked s ls
    → IsStocked s (replace_queue price q' ls)
unfolding replace_queue
replace_queue-IsStocked s price q' [] b h = tt
replace_queue-IsStocked s price q' ((p, q) ∷ ls) b h = elim (ℤ_cases p price) [
  | inl lt ↦ rw lt (h.0, h.1, replace_queue-IsStocked s price q' ls b h.2)
  | inr (inl (ge, gt)) ↦ rw (ge, gt) (h.0, h.1, replace_queue-IsStocked s price q' ls b h.2)
  | inr (inr (ge, le, same)) ↦
      rw (ge, le)
        (with_queue-IsStocked s p q' ls (subst (λ x. All (Belongs s x) q') (sym same) b) h.2)
]

pub level_find-Belongs :
    (s : OrderSide) (price : Double) (ls : Levels)
    → IsStocked s ls
    → All (Belongs s price) (level_find price ls)
unfolding level_find
level_find-Belongs s price [] h = tt
level_find-Belongs s price ((p, q) ∷ ls) h = elim (ℤ_cases p price) [
  | inl lt ↦ rw lt (level_find-Belongs s price ls h.2)
  | inr (inl (ge, gt)) ↦ rw (ge, gt) (level_find-Belongs s price ls h.2)
  | inr (inr (ge, le, same)) ↦ rw (ge, le) (subst (λ x. All (Belongs s x) q) same h.1)
]
