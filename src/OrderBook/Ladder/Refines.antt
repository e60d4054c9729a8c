-- ===== src/OrderBook/Ladder/Refines.antt =====
-- The calls of src/execution/order_book.cpp do to the book what the abstract calls do to its view.
use mathlib.Core.Path.{ap₂}
use wall.Core.{
  Double, OrderRequest, OrderSide, OrderType, buy, limit, market, quantity_tolerance, sell,
}
use wall.OrderBook.{
  OrderBook, OrderLocator, apply_fill, cancel_order, fill_at, is_request_compatible, levels_of,
  with_levels,
}
use wall.OrderBook.Changes.{LevelFills, apply_fill_to_levels-LevelFills, erase_from_levels-Removed}
use wall.OrderBook.Ladder.{
  AbstractBook, admitted, cancels_at, fills_at, held, ladder, remove, replace, side_of, view,
  with_side,
}
use wall.OrderBook.Ladder.Filling.{remove-ladder_filled, replace-ladder_filled}
use wall.OrderBook.Ladder.Held.{HeldCase, absent, held_cases, present}
use wall.OrderBook.Ladder.Taking.{Once, remove-ladder}
use wall.OrderBook.Operations.{without}
use wall.OrderBook.PriceLevels.{
  Levels, RestingOrder, apply_fill_to_levels, find_in_queue, level_find,
}
use wall.OrderBook.Queues.{reduced_order}
use wall.OrderBook.Validity.{IsValid}
use wall.Prelude.{
  Bool, Bool-cases, Option, String, ap, arith, false, if◌then◌else◌, inl, inr, is_some, none, refl,
  some, sym, true, ◌∙◌, ◌≡◌,
}
use wall.Prelude.Dict.{contains, lookup}
use wall.Prelude.Int.{leb_ℤ, -ℤ_parts}

pub view-with_levels :
    (b : OrderBook) (s : OrderSide) (l : Levels)
    → view (with_levels s l b) ≡ with_side s (ladder l) (view b)
unfolding view
view-with_levels b buy l = refl
view-with_levels b sell l = refl

view-without :
    (b : OrderBook) (k : String) (s : OrderSide) (l : Levels)
    → view (without b k s l) ≡ with_side s (ladder l) (view b)
unfolding view
view-without b k buy l = refl
view-without b k sell l = refl

pub side_of-view : (s : OrderSide) (b : OrderBook) → side_of s (view b) ≡ ladder (levels_of s b)
unfolding view
side_of-view buy b = refl
side_of-view sell b = refl

-- The state and the answer of a call, seen as those of the abstract book.
abbrev pub seen : OrderBook × Bool → AbstractBook × Bool
seen r = (view r.0, r.1)

module _ (b : OrderBook) (k : String) (v : IsValid b) where
  pub cancel_order_refines : seen (cancel_order b k) ≡ cancels_at (view b) k (held k (view b))
  unfolding cancel_order
  cancel_order_refines = by_case (held_cases b k v)
    where
      by_case : HeldCase b k → seen (cancel_order b k) ≡ cancels_at (view b) k (held k (view b))
      by_case (absent i h) = rw (i, h) refl
      by_case (present at o i h once f) =
          let (l, e, rm) =
            erase_from_levels-Removed at.side k at.price (levels_of at.side b) (v.ranked at.side)
              (v.stocked at.side) o f in
          rw (i, h, e)
            (ap₂ (λ x y. (x, y))
              (view-without b k at.side l
                ∙ ap (λ x. with_side at.side x (view b))
                    (sym (remove-ladder k at.side at.price (levels_of at.side b) l once e)
                      ∙ ap (remove k) (sym (side_of-view at.side b))))
              refl)

  pub apply_fill_refines :
      (x : Double)
      → seen (apply_fill b k x) ≡ (
          if leb_ℤ x quantity_tolerance
          then (view b, false)
          else fills_at (view b) k x (held k (view b)))
  unfolding apply_fill
  apply_fill_refines x = elim (Bool-cases (leb_ℤ x quantity_tolerance)) [
    | inl small ↦ rw small refl
    | inr more ↦ rw more (by_case (held_cases b k v))
  ]
    where
      located :
          (at : OrderLocator) (o : RestingOrder)
          → Once k at.side at.price (levels_of at.side b)
          → find_in_queue k (level_find at.price (levels_of at.side b)) ≡ some o
          → LevelFills at.side k at.price x
              (levels_of at.side b)
              o
              (apply_fill_to_levels k x at.price (levels_of at.side b))
          → seen (fill_at b k x (some at)) ≡ fills_at (view b) k x (some (at.side, o))
      located at o once f (LevelFills.too_much m e) = rw (e, m) refl
      located at o once f (LevelFills.takes_all l m a e w) =
          rw (e, m, a)
            (ap (λ y. (y, true))
              (view-without b k at.side l
                ∙ ap (λ y. with_side at.side y (view b))
                    (sym (remove-ladder_filled k x at.side at.price (levels_of at.side b) once l e)
                      ∙ ap (remove k) (sym (side_of-view at.side b)))))
      located at o once f (LevelFills.takes_part l m a e w) =
          rw (e, m, a)
            (ap (λ y. (y, true))
              (view-with_levels b at.side l
                ∙ ap (λ y. with_side at.side y (view b))
                    (sym (
                        replace-ladder_filled k x at.side at.price (levels_of at.side b) once l o f
                          e)
                      ∙ ap (replace k (reduced_order o x)) (sym (side_of-view at.side b)))))

      by_case :
          HeldCase b k
          → seen (fill_at b k x (lookup k b.order_index)) ≡ fills_at (view b) k x (held k (view b))
      by_case (absent i h) = rw (i, h) refl
      by_case (present at o i h once f) =
          rw (i, h)
            (located at o once f (
              apply_fill_to_levels-LevelFills at.side k at.price (levels_of at.side b)
                (v.ranked at.side) (v.stocked at.side) x o f))

is_some-held :
    (b : OrderBook) (k : String) → IsValid b → is_some (held k (view b)) ≡ contains k b.order_index
is_some-held b k v = by_case (held_cases b k v)
  where
    by_case : HeldCase b k → is_some (held k (view b)) ≡ contains k b.order_index
    by_case (absent i h) = rw (i, h) refl
    by_case (present at o i h once f) = rw (i, h) refl

-- The test of `add_order` and that of the abstract book agree.
pub admitted-compatible :
    (b : OrderBook) (r : OrderRequest) (k c : String) (q : Double)
    → IsValid b
    → admitted (view b) r k c q ≡ (if is_request_compatible b r k c q then r.price else none)
unfolding admitted is_request_compatible view
admitted-compatible b r k c q v = tests r.order_type r.price
  where
    tests :
        (t : OrderType) (p : Option Double)
        → admitted (view b) (record r { order_type = t; price = p }) k c q ≡ (
            if is_request_compatible b (record r { order_type = t; price = p }) k c q
            then p
            else none)
    tests market p = ground (arith, is_some-held b k v)
    tests limit none = ground (arith, is_some-held b k v)
    tests limit (some p) =
        ground (arith, is_some-held b k v, -ℤ_parts r.quantity quantity_tolerance)
