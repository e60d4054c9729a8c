-- ===== src/OrderBook/Safety.antt =====
-- Any sequence of calls of src/execution/order_book.cpp keeps a book valid, and what the calls return.
use wall.Core.{Double, Instrument, OrderRequest, quantity_tolerance}
use wall.OrderBook.{
  OrderBook, OrderLocator, add_order, apply_fill, cancel_order, find_order, is_request_compatible,
  levels_of, new_book, rest, with_levels,
}
use wall.OrderBook.Adding.{is_request_compatible-Compatible, rest-IsValid}
use wall.OrderBook.Changes.{
  LevelFills, Reduced, Removed, apply_fill_to_levels-LevelFills, erase_from_levels-Removed,
}
use wall.OrderBook.Operations.{with_levels-IsValid, without, without-IsValid}
use wall.OrderBook.PriceLevels.{
  Levels, RestingOrder, apply_fill_to_levels, find_in_queue, level_find, remaining_after,
}
use wall.OrderBook.Validity.{IsValid, located_found, new_book-IsValid}
use wall.Prelude.{
  Bool-cases, List, Option-cases, String, [], false, foldl, inl, inr, none, refl, some, subst, sym,
  true, ◌∷◌, ◌≡◌, ◌⊎◌,
}
use wall.Prelude.Dict.{lookup}
use wall.Prelude.Int.{leb_ℤ, ltb_ℤ, ◌+ℤ◌}

-- `cancel_order` of an identifier that the index has not, and of one that it has: then the order is found,
-- and the levels are those without it.
abbrev pub CancelOrderCase : OrderBook → String → Type 0
CancelOrderCase b k =
    ((lookup k b.order_index ≡ none) × (cancel_order b k ≡ (b, false)))
    ⊎ ((at : OrderLocator) × (o : RestingOrder) × (l : Levels) × (lookup k b.order_index ≡ some at)
        × (find_order b k ≡ some o)
        × (cancel_order b k ≡ (without b k at.side l, true))
        × Removed at.side k at.price o (levels_of at.side b) l)

-- On a valid book `cancel_order` refuses an identifier that the index has not and changes
-- nothing, and of one that the index has it removes the order that `find_order` finds, and no
-- other, from the levels, the index and the count.
pub cancel_order_cases : (b : OrderBook) (k : String) → IsValid b → CancelOrderCase b k
unfolding cancel_order find_order
cancel_order_cases b k v = elim (Option-cases (lookup k b.order_index)) [
  | inl e ↦ inl (e, rw e)
  | inr (at, e) ↦
      let (o, f) = located_found b k at v e in
      let (l, g, rm) =
        erase_from_levels-Removed at.side k at.price (levels_of at.side b) (v.ranked at.side)
          (v.stocked at.side) o f in
      inr (at, o, l, e, rw e f, rw (e, g) refl, rm)
]

-- Cancelling keeps the book valid.
pub cancel_order-IsValid : (b : OrderBook) (k : String) → IsValid b → IsValid (cancel_order b k).0
cancel_order-IsValid b k v = elim (cancel_order_cases b k v) [
  | inl (e, c) ↦ subst (λ x. IsValid x.0) (sym c) v
  | inr (at, o, l, e, f, c, rm) ↦
      subst (λ x. IsValid x.0) (sym c) (without-IsValid b k at o l v e rm)
]

pub add_order-IsValid :
    (b : OrderBook) (r : OrderRequest) (k c : String) (q : Double)
    → IsValid b
    → IsValid (add_order b r k c q).0
unfolding add_order
add_order-IsValid b r k c q v = elim (Bool-cases (is_request_compatible b r k c q)) [
  | inr misfit ↦ rw misfit v
  | inl fits ↦
      let (price, ok) = is_request_compatible-Compatible b r k c q fits in
      rw fits (
        subst (λ p. IsValid (rest b r k c q p)) (sym ok.price_is)
          (rest-IsValid b r k c q price v ok))
]

-- What `apply_fill` does.
pub data FillCase (b : OrderBook) (k : String) (executed : Double) : Type 0 where
  within_tolerance :
      leb_ℤ executed quantity_tolerance ≡ true
      → apply_fill b k executed ≡ (b, false)
      → FillCase b k executed
  unknown :
      lookup k b.order_index ≡ none → apply_fill b k executed ≡ (b, false) → FillCase b k executed
  too_much :
      (o : RestingOrder)
      → find_order b k ≡ some o
      → ltb_ℤ (o.remaining_quantity +ℤ quantity_tolerance) executed ≡ true
      → apply_fill b k executed ≡ (b, false)
      → FillCase b k executed
  takes_all :
      (at : OrderLocator) (o : RestingOrder) (l : Levels)
      → lookup k b.order_index ≡ some at
      → find_order b k ≡ some o
      → ltb_ℤ (o.remaining_quantity +ℤ quantity_tolerance) executed ≡ false
      → leb_ℤ (remaining_after o executed) quantity_tolerance ≡ true
      → apply_fill b k executed ≡ (without b k at.side l, true)
      → Removed at.side k at.price o (levels_of at.side b) l
      → FillCase b k executed
  takes_part :
      (at : OrderLocator) (o : RestingOrder) (l : Levels)
      → lookup k b.order_index ≡ some at
      → find_order b k ≡ some o
      → ltb_ℤ (o.remaining_quantity +ℤ quantity_tolerance) executed ≡ false
      → leb_ℤ (remaining_after o executed) quantity_tolerance ≡ false
      → apply_fill b k executed ≡ (with_levels at.side l b, true)
      → Reduced at.side k at.price executed o (levels_of at.side b) l
      → FillCase b k executed

FillCase-located :
    (b : OrderBook) (k : String) (executed : Double) (at : OrderLocator) (o : RestingOrder)
    → leb_ℤ executed quantity_tolerance ≡ false
    → lookup k b.order_index ≡ some at
    → find_in_queue k (level_find at.price (levels_of at.side b)) ≡ some o
    → LevelFills at.side k at.price executed
        (levels_of at.side b)
        o
        (apply_fill_to_levels k executed at.price (levels_of at.side b))
    → FillCase b k executed
unfolding apply_fill find_order
FillCase-located b k executed at o x e f (LevelFills.too_much m r) =
    too_much o (rw e f) m (rw (x, e, r))
FillCase-located b k executed at o x e f (LevelFills.takes_all l m a r w) =
    takes_all at o l e (rw e f) m a (rw (x, e, r)) w
FillCase-located b k executed at o x e f (LevelFills.takes_part l m a r w) =
    takes_part at o l e (rw e f) m a (rw (x, e, r)) w

-- On a valid book `apply_fill` changes nothing and refuses a quantity within the tolerance, an
-- identifier that the index has not, and more than the order has left and the tolerance; else it
-- takes the order out of its level, the index and the count when no more than the tolerance would
-- be left, and otherwise lessens its remaining quantity and leaves every other order at its
-- price.
pub apply_fill-FillCase :
    (b : OrderBook) (k : String) (executed : Double) → IsValid b → FillCase b k executed
unfolding apply_fill
apply_fill-FillCase b k executed v = elim (Bool-cases (leb_ℤ executed quantity_tolerance)) [
  | inl small ↦ within_tolerance small (rw small)
  | inr x ↦ elim (Option-cases (lookup k b.order_index)) [
    | inl e ↦ unknown e (rw (x, e))
    | inr (at, e) ↦
        let (o, f) = located_found b k at v e in
        FillCase-located b k executed at o x e f (
          apply_fill_to_levels-LevelFills at.side k at.price (levels_of at.side b)
            (v.ranked at.side) (v.stocked at.side) executed o f)
  ]
]

pub apply_fill-IsValid :
    (b : OrderBook) (k : String) (executed : Double)
    → IsValid b
    → IsValid (apply_fill b k executed).0
apply_fill-IsValid b k executed v = by_case (apply_fill-FillCase b k executed v)
  where
    by_case : FillCase b k executed → IsValid (apply_fill b k executed).0
    by_case (within_tolerance x e) = subst (λ y. IsValid y.0) (sym e) v
    by_case (unknown x e) = subst (λ y. IsValid y.0) (sym e) v
    by_case (too_much o f m e) = subst (λ y. IsValid y.0) (sym e) v
    by_case (takes_all at o l i f m a e w) =
        subst (λ y. IsValid y.0) (sym e) (without-IsValid b k at o l v i w)
    by_case (takes_part at o l i f m a e w) =
        subst (λ y. IsValid y.0) (sym e) (with_levels-IsValid b k at.side at.price executed o l v w)

-- The calls that change a book.
pub data Call : Type 0 where
  adds : OrderRequest → String → String → Double → Call
  cancels : String → Call
  fills : String → Double → Call

unfoldable pub call : OrderBook → Call → OrderBook
call b (adds r k c q) = (add_order b r k c q).0
call b (cancels k) = (cancel_order b k).0
call b (fills k x) = (apply_fill b k x).0

-- After any sequence of calls on a new book the levels of each side are strictly ranked and hold no
-- empty queue, every order rests on its own side at its own price with more than the tolerance left,
-- the index names exactly the orders that rest, each once, and the count is theirs modulo 2^64.
pub calls-IsValid : (i : Instrument) (cs : List Call) → IsValid (foldl call (new_book i) cs)
unfolding call
calls-IsValid i cs = from (new_book i) cs (new_book-IsValid i)
  where
    step : (b : OrderBook) (c : Call) → IsValid b → IsValid (call b c)
    step b (adds r k c q) v = add_order-IsValid b r k c q v
    step b (cancels k) v = cancel_order-IsValid b k v
    step b (fills k x) v = apply_fill-IsValid b k x v

    from : (b : OrderBook) (cs : List Call) → IsValid b → IsValid (foldl call b cs)
    from b [] v = v
    from b (c ∷ cs) v = from (call b c) cs (step b c v)
