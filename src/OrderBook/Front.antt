-- ===== src/OrderBook/Front.antt =====
-- The best order of a side (src/execution/order_book.cpp): the front order of the first level is
-- known to the index, and the calls that name its id hit it.
use wall.Core.{Double, OrderSide, buy, sell}
use wall.OrderBook.{OrderBook, OrderLocator, find_at, find_order, front_order, levels_of}
use wall.OrderBook.Operations.{is_id_self}
use wall.OrderBook.PriceLevels.{Levels, RestingOrder, find_in_queue, level_find}
use wall.OrderBook.Stocked.{Belongs, IsStocked}
use wall.OrderBook.Validity.{IsValid, LocatedAt, weigh-is_at-le, weigh_queue-is_at-le}
use wall.OrderBook.Weigh.{is_at, is_id, weigh, weigh_queue}
use wall.Prelude.{
  Bool-cases, List, Option, String, [], ap, arith, inl, inr, none, refl, some, some_inj, subst, sym,
  ◌<◌, ◌∙◌, ◌∷◌, ◌≡◌,
}
use wall.Prelude.Dict.{lookup}
use wall.Prelude.Int.{eqb_ℤ, eqb_ℤ→eq}

-- The first level of stocked levels is the one that the front order belongs on.
pub front_order-first :
    (ls : Levels) (o : RestingOrder)
    → front_order ls ≡ some o
    → (p : Double) × (q : List RestingOrder) × (rest : Levels) × (ls ≡ (p, o ∷ q) ∷ rest)
front_order-first [] o h = cc
front_order-first ((p, []) ∷ ls) o h = cc
front_order-first ((p, x ∷ q) ∷ ls) o h = (p, q, ls, ap (λ y. (p, y ∷ q) ∷ ls) (some_inj h))

-- A side is empty exactly when it has no front order.
pub front_order-none :
    (s : OrderSide) (ls : Levels) → IsStocked s ls → front_order ls ≡ none → ls ≡ []
front_order-none s [] st h = refl
front_order-none s ((p, []) ∷ ls) st h = absurd (st.0 refl)
front_order-none s ((p, x ∷ q) ∷ ls) st h = cc

-- If the id of the front order stands once, and once at some price, that price is its level's.
front_price :
    (k : String) (p price : Double) (o : RestingOrder) (q : List RestingOrder) (ls : Levels)
    → o.order_id ≡ k
    → weigh (is_id k) ((p, o ∷ q) ∷ ls) ≡ 1
    → weigh (is_at k price) ((p, o ∷ q) ∷ ls) ≡ 1
    → price ≡ p
unfolding weigh weigh_queue
front_price k p price o q ls h once at = elim (Bool-cases (eqb_ℤ p price)) [
  | inl same ↦ sym (eqb_ℤ→eq p price same)
  | inr differs ↦ absurd (
      ground
        (arith, weigh-is_at-le k price ls, weigh_queue-is_at-le k price p q, is_id_self k p o h))
]

pub record FrontFound (b : OrderBook) (s : OrderSide) (o : RestingOrder) : Type 0 where
  pub price : Double
  pub queue : List RestingOrder
  pub rest : Levels
  pub levels_are : levels_of s b ≡ (price, o ∷ queue) ∷ rest
  pub index_is : lookup o.order_id b.order_index ≡ some (record { side = s; price = price })
  pub found : find_order b o.order_id ≡ some o
  pub belongs : Belongs s price o

first_once :
    (p : Double) (o : RestingOrder) (q : List RestingOrder) (ls : Levels)
    → 0 < weigh (is_id o.order_id) ((p, o ∷ q) ∷ ls)
unfolding weigh weigh_queue
first_once p o q ls = omega (arith, is_id_self o.order_id p o refl)

find_first :
    (p : Double) (o : RestingOrder) (q : List RestingOrder) (ls : Levels)
    → find_in_queue o.order_id (level_find p ((p, o ∷ q) ∷ ls)) ≡ some o
unfolding find_in_queue level_find
find_first p o q ls = ground arith

-- The locator of an id that stands on a side names that side.
located_side :
    (b : OrderBook) (s : OrderSide) (k : String) (m : Option OrderLocator)
    → LocatedAt b k m
    → 0 < weigh (is_id k) (levels_of s b)
    → (price : Double) × (m ≡ some (record { side = s; price = price }))
located_side b buy k none l h = absurd (omega arith)
located_side b sell k none l h = absurd (omega arith)
located_side b s k (some at) l h = by_side s at.side at.price l h
  where
    by_side :
        (s t : OrderSide) (p : Double)
        → LocatedAt b k (some (record { side = t; price = p }))
        → 0 < weigh (is_id k) (levels_of s b)
        → (price : Double) × (◌≡◌ {A = Option OrderLocator}
            (some (record { side = t; price = p }))
            (some (record { side = s; price = price })))
    by_side buy buy p l h = (p, refl)
    by_side sell sell p l h = (p, refl)
    by_side buy sell p l h = absurd (omega arith)
    by_side sell buy p l h = absurd (omega arith)

pub front_order-FrontFound :
    (b : OrderBook) (s : OrderSide) (o : RestingOrder)
    → IsValid b
    → front_order (levels_of s b) ≡ some o
    → FrontFound b s o
unfolding find_order
front_order-FrontFound b s o v h =
    let (p, q, ls, e) = front_order-first (levels_of s b) o h in
    let here : 0 < weigh (is_id o.order_id) (levels_of s b) = rw e (first_once p o q ls) in
    let (price, i) =
      located_side b s o.order_id (lookup o.order_id b.order_index) (v.located o.order_id) here in
    let l : LocatedAt b o.order_id (some (record { side = s; price = price })) =
      subst (LocatedAt b o.order_id) i (v.located o.order_id) in
    let same : price ≡ p =
      front_price o.order_id p price o q ls refl (subst (λ x. weigh (is_id o.order_id) x ≡ 1) e l.0)
        (subst (λ x. weigh (is_at o.order_id price) x ≡ 1) e l.2) in
    let st : IsStocked s ((p, o ∷ q) ∷ ls) = subst (IsStocked s) e (v.stocked s) in
    let known : lookup o.order_id b.order_index ≡ some (record { side = s; price = p }) =
      i ∙ ap (λ x. some (record { side = s; price = x })) same in
    record {
      price = p;
      queue = q;
      rest = ls;
      levels_are = e;
      index_is = known;
      found =
          ap (find_at b o.order_id) known
          ∙ ap (λ x. find_in_queue o.order_id (level_find p x)) e
          ∙ find_first p o q ls;
      belongs = st.1.0;
    }
