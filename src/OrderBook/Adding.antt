-- ===== src/OrderBook/Adding.antt =====
-- `add_order` of src/execution/order_book.cpp: what its test lets through, and that the book with
-- the new order is valid.
use wall.Core.{Double, OrderRequest, OrderSide, buy, quantity_tolerance, sell}
use wall.OrderBook.{OrderBook, is_request_compatible, levels_of, rest, resting_order, with_levels}
use wall.OrderBook.Operations.{
  LocatedAt-unseen, Sides, Sides-all, is_at-ne, is_at_self, is_id-ne, is_id_self, total_of,
}
use wall.OrderBook.PriceLevels.{Levels, RestingOrder, push_order}
use wall.OrderBook.Ranked.{IsRanked, push_order-IsRanked}
use wall.OrderBook.Stocked.{Belongs, IsStocked, push_order-IsStocked}
use wall.OrderBook.Validity.{IsValid, LocatedAt, one_each, weigh-is_at-le}
use wall.OrderBook.Weigh.{Weight, is_at, is_id, weigh, weigh-push_order}
use wall.Prelude.{
  Option-cases, String, ap, arith, inc_u64, inl, inr, none, refl, some, subst, sym, true, ◌+◌, ◌∙◌,
  ◌≡◌,
}
use wall.Prelude.Dict.{insert, lookup, lookup-insert_ne, lookup-insert_self}
use wall.Prelude.Int.{pos, ◌-ℤ◌, ◌<ℤ◌, ◌≤ℤ◌, -ℤ_parts}
use wall.Prelude.Text.{dec_str}

-- What `is_request_compatible` ensures.
pub record Compatible (b : OrderBook) (r : OrderRequest) (k : String)
    (filled_quantity price : Double) : Type 0 where
  pub price_is : r.price ≡ some price
  pub price_positive : pos 0 <ℤ price
  pub filled_nonneg : pos 0 ≤ℤ filled_quantity
  pub unfilled : quantity_tolerance <ℤ r.quantity -ℤ filled_quantity
  pub unknown : lookup k b.order_index ≡ none
  pub instrument_is : r.instrument.instrument_id ≡ b.instrument.instrument_id

pub is_request_compatible-Compatible :
    (b : OrderBook) (r : OrderRequest) (k c : String) (filled_quantity : Double)
    → is_request_compatible b r k c filled_quantity ≡ true
    → (price : Double) × Compatible b r k filled_quantity price
unfolding is_request_compatible
is_request_compatible-Compatible b r k c filled_quantity h = elim (Option-cases r.price) [
  | inl missing ↦ absurd (ground arith)
  | inr (price, e) ↦ (
    price,
    record {
      price_is = e;
      price_positive = ground arith;
      filled_nonneg = ground arith;
      unfilled =
          ground
            (arith, -ℤ_parts r.quantity quantity_tolerance, -ℤ_parts r.quantity filled_quantity);
      unknown = ground arith;
      instrument_is = ground arith;
    },
  )
]

pub rest-Sides :
    (b : OrderBook) (r : OrderRequest) (k c : String) (filled_quantity price : Double)
    → let o : RestingOrder = resting_order r k c filled_quantity b.next_sequence_number in
      Sides r.side
        (push_order r.side price o (levels_of r.side b))
        b
        (rest b r k c filled_quantity (some price))
unfolding rest
rest-Sides b r k c filled_quantity price = both r.side
  where
    both :
        (s : OrderSide)
        → let o : RestingOrder = resting_order r k c filled_quantity b.next_sequence_number in
          let l = push_order s price o (levels_of s b) in
          Sides s l b (record (with_levels s l b) {
            order_index = insert k (record { side = s; price = price }) b.order_index;
            order_count = inc_u64 b.order_count;
            next_sequence_number = inc_u64 b.next_sequence_number;
          })
    both buy = record { here = refl; there = refl }
    both sell = record { here = refl; there = refl }

pub rest-index :
    (b : OrderBook) (r : OrderRequest) (k c : String) (q price : Double)
    → ((rest b r k c q (some price)).order_index
        ≡ insert k (record { side = r.side; price = price }) b.order_index)
      × ((rest b r k c q (some price)).order_count ≡ inc_u64 b.order_count)
unfolding rest
rest-index b r k c q price = (refl, refl)

module _ (b : OrderBook) (r : OrderRequest) (k c : String) (q price : Double) (v : IsValid b)
    (ok : Compatible b r k q price) where
  abbrev new_order : RestingOrder
  new_order = resting_order r k c q b.next_sequence_number

  abbrev new_levels : Levels
  new_levels = push_order r.side price new_order (levels_of r.side b)

  abbrev new_book' : OrderBook
  new_book' = rest b r k c q (some price)

  new_order-Belongs : Belongs r.side price new_order
  new_order-Belongs = record {
    side_is = refl;
    price_is = ok.price_is;
    left = ground (arith, ok.unfilled);
  }

  pushed : (f : Weight) → weigh f new_levels ≡ weigh f (levels_of r.side b) + f price new_order
  pushed f = weigh-push_order f r.side price new_order (levels_of r.side b)

  new_order-located : LocatedAt new_book' k (some (record { side = r.side; price = price }))
  new_order-located =
      let absent : LocatedAt b k none = subst (LocatedAt b k) ok.unknown (v.located k) in
      both r.side new_levels b new_book' (rest-Sides b r k c q price) absent
        (λ none_there. omega (arith, pushed (is_id k), is_id_self k price new_order refl))
        (λ none_there. omega (
          arith,
          pushed (is_at k price),
          is_at_self k price new_order refl,
          weigh-is_at-le k price (levels_of r.side b),
        ))
    where
      both :
          (s : OrderSide) (l : Levels) (b b' : OrderBook)
          → Sides s l b b'
          → LocatedAt b k none
          → (weigh (is_id k) (levels_of s b) ≡ 0 → weigh (is_id k) l ≡ 1)
          → (weigh (is_id k) (levels_of s b) ≡ 0 → weigh (is_at k price) l ≡ 1)
          → LocatedAt b' k (some (record { side = s; price = price }))
      both buy l b b' d a f g = (rw d.here (f a.0), rw d.there a.1, rw d.here (g a.0))
      both sell l b b' d a f g = (rw d.here (f a.1), rw d.there a.0, rw d.here (g a.1))

  located_all : (j : String) → Dec (j ≡ k) → LocatedAt new_book' j (lookup j new_book'.order_index)
  located_all j (yes hit) =
      subst (λ i. LocatedAt new_book' i (lookup i new_book'.order_index)) (sym hit)
        (subst (LocatedAt new_book' k)
          (sym
            (ap (lookup k) (rest-index b r k c q price).0 ∙ lookup-insert_self k _ b.order_index))
          new_order-located)
  located_all j (no miss) =
      subst (LocatedAt new_book' j)
        (sym (
          ap (lookup j) (rest-index b r k c q price).0 ∙ lookup-insert_ne j k _ b.order_index miss))
        (LocatedAt-unseen r.side new_levels b new_book' j (lookup j b.order_index)
          (rest-Sides b r k c q price)
          (omega (arith, pushed (is_id j), is_id-ne j k price new_order refl miss))
          (λ p. omega (arith, pushed (is_at j p), is_at-ne j k p price new_order refl miss))
          (v.located j))

  -- The book with the new order is valid.
  pub rest-IsValid : IsValid new_book'
  rest-IsValid = record {
    ranked =
        Sides-all IsRanked r.side new_levels b new_book' (rest-Sides b r k c q price)
          (push_order-IsRanked r.side price new_order (levels_of r.side b) (v.ranked r.side))
          v.ranked;
    stocked =
        Sides-all IsStocked r.side new_levels b new_book' (rest-Sides b r k c q price)
          (push_order-IsStocked r.side price new_order (levels_of r.side b) new_order-Belongs
            (v.stocked r.side))
          v.stocked;
    located = λ j. located_all j (dec_str j k);
    counted = omega (
      arith,
      (rest-index b r k c q price).1,
      total_of r.side new_levels b new_book' (rest-Sides b r k c q price),
      pushed one_each,
      v.counted,
    );
  }
