-- ===== src/OrderBook/Validity.antt =====
-- The invariant of a book (src/execution/order_book.cpp), and what it says of the order index.
use wall.Core.{Double, Instrument, OrderSide, buy, sell}
use wall.OrderBook.{OrderBook, OrderLocator, levels_of, new_book}
use wall.OrderBook.Changes.{find_held}
use wall.OrderBook.PriceLevels.{Levels, RestingOrder, find_in_queue, level_find}
use wall.OrderBook.Ranked.{IsRanked}
use wall.OrderBook.Stocked.{IsStocked}
use wall.OrderBook.Weigh.{Weight, is_at, is_id, weigh, weigh_queue}
use wall.Prelude.{
  List, Option, String, [], arith, none, refl, some, subst, ◌%◌, ◌+◌, ◌^◌, ◌∷◌, ◌≡◌, ◌≤◌,
}
use wall.Prelude.Dict.{lookup}

abbrev pub one_each : Weight
one_each p o = 1

abbrev pub other : OrderSide → OrderSide
other buy = sell
other sell = buy

-- What the index says of an id is what the levels hold: nothing, or one order, on the side and at
-- the price that the locator names.
abbrev pub LocatedAt : OrderBook → String → Option OrderLocator → Type 0
LocatedAt b k none =
    (weigh (is_id k) (levels_of buy b) ≡ 0) × (weigh (is_id k) (levels_of sell b) ≡ 0)
LocatedAt b k (some at) =
    (weigh (is_id k) (levels_of at.side b) ≡ 1)
    × (weigh (is_id k) (levels_of (other at.side) b) ≡ 0)
    × (weigh (is_at k at.price) (levels_of at.side b) ≡ 1)

pub record IsValid (b : OrderBook) : Type 0 where
  pub ranked : (s : OrderSide) → IsRanked s (levels_of s b)
  pub stocked : (s : OrderSide) → IsStocked s (levels_of s b)
  pub located : (k : String) → LocatedAt b k (lookup k b.order_index)
  pub counted :
      b.order_count
      ≡ (weigh one_each (levels_of buy b) + weigh one_each (levels_of sell b)) % 2 ^ 64

-- A new book is valid.
pub new_book-IsValid : (i : Instrument) → IsValid (new_book i)
unfolding new_book weigh lookup
new_book-IsValid i = record {
  ranked = ranked;
  stocked = stocked;
  located = λ k. (refl, refl);
  counted = refl;
}
  where
    ranked : (s : OrderSide) → IsRanked s (levels_of s (new_book i))
    ranked buy = tt
    ranked sell = tt

    stocked : (s : OrderSide) → IsStocked s (levels_of s (new_book i))
    stocked buy = tt
    stocked sell = tt

weigh_queue_mono :
    (f g : Weight) (p : Double) (q : List RestingOrder)
    → ((x : Double) (o : RestingOrder) → f x o ≤ g x o)
    → weigh_queue f p q ≤ weigh_queue g p q
unfolding weigh_queue
weigh_queue_mono f g p [] h = omega arith
weigh_queue_mono f g p (o ∷ q) h = omega (arith, weigh_queue_mono f g p q h, h p o)

pub weigh_mono :
    (f g : Weight) (ls : Levels)
    → ((x : Double) (o : RestingOrder) → f x o ≤ g x o)
    → weigh f ls ≤ weigh g ls
unfolding weigh
weigh_mono f g [] h = omega arith
weigh_mono f g ((p, q) ∷ ls) h = omega (arith, weigh_queue_mono f g p q h, weigh_mono f g ls h)

is_at-le-is_id :
    (k : String) (price x : Double) (o : RestingOrder) → is_at k price x o ≤ is_id k x o
is_at-le-is_id k price x o = ground arith

pub weigh-is_at-le :
    (k : String) (price : Double) (ls : Levels) → weigh (is_at k price) ls ≤ weigh (is_id k) ls
weigh-is_at-le k price ls = weigh_mono (is_at k price) (is_id k) ls (is_at-le-is_id k price)

pub weigh_queue-is_at-le :
    (k : String) (price p : Double) (q : List RestingOrder)
    → weigh_queue (is_at k price) p q ≤ weigh_queue (is_id k) p q
weigh_queue-is_at-le k price p q =
    weigh_queue_mono (is_at k price) (is_id k) p q (is_at-le-is_id k price)

-- In a valid book an order that the index knows is in the queue that its locator names.
pub located_found :
    (b : OrderBook) (k : String) (at : OrderLocator)
    → IsValid b
    → lookup k b.order_index ≡ some at
    → (o : RestingOrder) × (find_in_queue k (level_find at.price (levels_of at.side b)) ≡ some o)
located_found b k at v e =
    let l : LocatedAt b k (some at) = subst (LocatedAt b k) e (v.located k) in
    find_held at.side k at.price (levels_of at.side b) (v.ranked at.side) (v.stocked at.side) l.2
