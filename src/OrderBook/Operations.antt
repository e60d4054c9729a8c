-- ===== src/OrderBook/Operations.antt =====
-- The operations of src/execution/order_book.cpp that change the book keep it valid.
use wall.Core.{Double, OrderSide, buy, sell}
use wall.OrderBook.{OrderBook, OrderLocator, levels_of, with_levels}
use wall.OrderBook.Changes.{Reduced, Removed}
use wall.OrderBook.PriceLevels.{Levels, RestingOrder}
use wall.OrderBook.Ranked.{IsRanked}
use wall.OrderBook.Stocked.{IsStocked}
use wall.OrderBook.Validity.{IsValid, LocatedAt, one_each, other}
use wall.OrderBook.Weigh.{is_at, is_id, weigh}
use wall.Prelude.{
  Option, String, ap, arith, dec_u64, none, refl, some, subst, sym, ◌+◌, ◌∙◌, ◌≡◌, ◌≢◌,
}
use wall.Prelude.Dict.{erase, lookup, lookup-erase_ne, lookup-erase_self}
use wall.Prelude.Text.{dec_str}

-- The book `b'` is `b` with the levels of one side replaced, index and counters apart.
pub record Sides (s : OrderSide) (l : Levels) (b b' : OrderBook) : Type 0 where
  pub here : levels_of s b' ≡ l
  pub there : levels_of (other s) b' ≡ levels_of (other s) b

pub Sides-all :
    (P : OrderSide → Levels → Type 0) (s : OrderSide) (l : Levels) (b b' : OrderBook)
    → Sides s l b b'
    → P s l
    → ((s' : OrderSide) → P s' (levels_of s' b))
    → (s' : OrderSide) → P s' (levels_of s' b')
Sides-all P buy l b b' d h g buy = subst (P buy) (sym d.here) h
Sides-all P buy l b b' d h g sell = subst (P sell) (sym d.there) (g sell)
Sides-all P sell l b b' d h g buy = subst (P buy) (sym d.there) (g buy)
Sides-all P sell l b b' d h g sell = subst (P sell) (sym d.here) h

LocatedAt-same :
    (b b' : OrderBook) (k : String) (m : Option OrderLocator)
    → ((s : OrderSide) → weigh (is_id k) (levels_of s b') ≡ weigh (is_id k) (levels_of s b))
    → ((p : Double) (s : OrderSide)
        → weigh (is_at k p) (levels_of s b') ≡ weigh (is_at k p) (levels_of s b))
    → LocatedAt b k m
    → LocatedAt b' k m
LocatedAt-same b b' k none h g l = (h buy ∙ l.0, h sell ∙ l.1)
LocatedAt-same b b' k (some at) h g l =
    (h at.side ∙ l.0, h (other at.side) ∙ l.1, g at.price at.side ∙ l.2)

-- A change of one side that an id does not see leaves its location.
pub LocatedAt-unseen :
    (s : OrderSide) (l : Levels) (b b' : OrderBook) (k : String) (m : Option OrderLocator)
    → Sides s l b b'
    → weigh (is_id k) l ≡ weigh (is_id k) (levels_of s b)
    → ((p : Double) → weigh (is_at k p) l ≡ weigh (is_at k p) (levels_of s b))
    → LocatedAt b k m
    → LocatedAt b' k m
LocatedAt-unseen s l b b' k m d h g =
    LocatedAt-same b b' k m
      (Sides-all (λ s' x. weigh (is_id k) x ≡ weigh (is_id k) (levels_of s' b)) s l b b' d h
        (λ s'. refl))
      λ p.
        Sides-all (λ s' x. weigh (is_at k p) x ≡ weigh (is_at k p) (levels_of s' b)) s l b b' d
          (g p) (λ s'. refl)

pub total_of :
    (s : OrderSide) (l : Levels) (b b' : OrderBook)
    → Sides s l b b'
    → weigh one_each (levels_of buy b')
        + weigh one_each (levels_of sell b')
        + weigh one_each (levels_of s b)
      ≡ weigh one_each (levels_of buy b) + weigh one_each (levels_of sell b) + weigh one_each l
total_of buy l b b' d = omega (arith, ap (weigh one_each) d.here, ap (weigh one_each) d.there)
total_of sell l b b' d = omega (arith, ap (weigh one_each) d.here, ap (weigh one_each) d.there)

pub is_id_self : (k : String) (p : Double) (o : RestingOrder) → o.order_id ≡ k → is_id k p o ≡ 1
is_id_self k p o h = ground arith

pub is_id-ne :
    (j k : String) (p : Double) (o : RestingOrder) → o.order_id ≡ k → j ≢ k → is_id j p o ≡ 0
is_id-ne j k p o h n = ground arith

pub is_at-ne :
    (j k : String) (x p : Double) (o : RestingOrder) → o.order_id ≡ k → j ≢ k → is_at j x p o ≡ 0
is_at-ne j k x p o h n = ground arith

pub is_at_self : (k : String) (p : Double) (o : RestingOrder) → o.order_id ≡ k → is_at k p p o ≡ 1
is_at_self k p o h = ground arith

-- The book without an order, as `cancel_order` and a fill that takes all of it leave it.
abbrev pub without : OrderBook → String → OrderSide → Levels → OrderBook
without b k s l = record (with_levels s l b) {
  order_index = erase k b.order_index;
  order_count = dec_u64 b.order_count;
}

pub without-Sides :
    (b : OrderBook) (k : String) (s : OrderSide) (l : Levels) → Sides s l b (without b k s l)
without-Sides b k buy l = record { here = refl; there = refl }
without-Sides b k sell l = record { here = refl; there = refl }

pub without-index :
    (b : OrderBook) (k : String) (s : OrderSide) (l : Levels)
    → (without b k s l).order_index ≡ erase k b.order_index
without-index b k buy l = refl
without-index b k sell l = refl

module _ (b : OrderBook) (k : String) (at : OrderLocator) (o : RestingOrder) (l : Levels)
    (v : IsValid b) (e : lookup k b.order_index ≡ some at)
    (rm : Removed at.side k at.price o (levels_of at.side b) l) where
  without-located_self : LocatedAt (without b k at.side l) k none
  without-located_self =
      let d = without-Sides b k at.side l in
      let old : LocatedAt b k (some at) = subst (LocatedAt b k) e (v.located k) in
      let gone : weigh (is_id k) l ≡ 0 =
        omega (arith, rm.weight (is_id k), is_id_self k at.price o rm.id_is, old.0) in
      both at.side l b (without b k at.side l) d gone old.1
    where
      both :
          (s : OrderSide) (l : Levels) (b b' : OrderBook)
          → Sides s l b b'
          → weigh (is_id k) l ≡ 0
          → weigh (is_id k) (levels_of (other s) b) ≡ 0
          → LocatedAt b' k none
      both buy l b b' d h g = (rw d.here h, rw d.there g)
      both sell l b b' d h g = (rw d.there g, rw d.here h)

  without-located_other :
      (j : String)
      → j ≢ k
      → LocatedAt b j (lookup j b.order_index)
      → LocatedAt (without b k at.side l) j (lookup j b.order_index)
  without-located_other j n =
      LocatedAt-unseen at.side l b (without b k at.side l) j (lookup j b.order_index)
        (without-Sides b k at.side l)
        (omega (arith, rm.weight (is_id j), is_id-ne j k at.price o rm.id_is n))
        (λ p. omega (arith, rm.weight (is_at j p), is_at-ne j k p at.price o rm.id_is n))

  -- The book without an order that it held is valid.
  pub without-IsValid : IsValid (without b k at.side l)
  without-IsValid = record {
    ranked =
        Sides-all IsRanked at.side l b (without b k at.side l) (without-Sides b k at.side l)
          rm.ranked v.ranked;
    stocked =
        Sides-all IsStocked at.side l b (without b k at.side l) (without-Sides b k at.side l)
          rm.stocked v.stocked;
    located = λ j. located_all j (dec_str j k);
    counted = omega (
      arith,
      total_of at.side l b (without b k at.side l) (without-Sides b k at.side l),
      rm.weight one_each,
      v.counted,
    );
  }
    where
      located_all :
          (j : String)
          → Dec (j ≡ k)
          → LocatedAt (without b k at.side l) j (lookup j (without b k at.side l).order_index)
      located_all j (yes hit) =
          subst (λ i. LocatedAt (without b k at.side l) i (lookup i (erase k b.order_index)))
            (sym hit) (rw (lookup-erase_self k b.order_index) without-located_self)
      located_all j (no miss) =
          rw (lookup-erase_ne j k b.order_index miss) (without-located_other j miss (v.located j))

pub with_levels-Sides :
    (b : OrderBook) (s : OrderSide) (l : Levels) → Sides s l b (with_levels s l b)
with_levels-Sides b buy l = record { here = refl; there = refl }
with_levels-Sides b sell l = record { here = refl; there = refl }

pub with_levels-index :
    (b : OrderBook) (s : OrderSide) (l : Levels) → (with_levels s l b).order_index ≡ b.order_index
with_levels-index b buy l = refl
with_levels-index b sell l = refl

with_levels-count :
    (b : OrderBook) (s : OrderSide) (l : Levels) → (with_levels s l b).order_count ≡ b.order_count
with_levels-count b buy l = refl
with_levels-count b sell l = refl

-- A partial fill keeps the book valid.
pub with_levels-IsValid :
    (b : OrderBook) (k : String) (s : OrderSide) (p executed : Double) (o : RestingOrder)
    (l : Levels)
    → IsValid b
    → Reduced s k p executed o (levels_of s b) l
    → IsValid (with_levels s l b)
with_levels-IsValid b k s p executed o l v rd =
    let d = with_levels-Sides b s l in
    record {
      ranked = Sides-all IsRanked s l b (with_levels s l b) d rd.ranked v.ranked;
      stocked = Sides-all IsStocked s l b (with_levels s l b) d rd.stocked v.stocked;
      located = λ j. rw (with_levels-index b s l) (
          LocatedAt-unseen s l b (with_levels s l b) j (lookup j b.order_index) d
            (omega (arith, rd.weight (is_id j))) (λ x. omega (arith, rd.weight (is_at j x)))
            (v.located j));
      counted = omega (
        arith,
        with_levels-count b s l,
        total_of s l b (with_levels s l b) d,
        rd.weight one_each,
        v.counted,
      );
    }
