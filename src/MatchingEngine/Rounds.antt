-- ===== src/MatchingEngine/Rounds.antt =====
-- One round of the loop of `submit` (src/execution/matching_engine.cpp) on a valid book.
use wall.Core.{Double, OrderSide, quantity_tolerance}
use wall.OrderBook.{OrderBook, apply_fill, front_order, levels_of, with_levels}
use wall.OrderBook.Changes.{Reduced, Removed}
use wall.OrderBook.Front.{FrontFound, front_order-FrontFound}
use wall.OrderBook.Operations.{with_levels-IsValid, without, without-IsValid}
use wall.OrderBook.PriceLevels.{Levels, RestingOrder, remaining_after}
use wall.OrderBook.Safety.{FillCase, apply_fill-FillCase}
use wall.OrderBook.Validity.{IsValid}
use wall.Prelude.{ap, arith, false, refl, some, some_inj, subst, sym, true, ◌∙◌, ◌≡◌}
use wall.Prelude.Dict.{lookup}
use wall.Prelude.Int.{+ℤ_parts, leb_ℤ, ltb_ℤ, ◌+ℤ◌, ◌<ℤ◌, ◌≤ℤ◌}

-- What a fill of the front order of a side does to the book. More than the tolerance is executed,
-- and no more than the order has left.
pub data FrontFill (b : OrderBook) (s : OrderSide) (o : RestingOrder) (executed : Double)
    (b' : OrderBook) : Type 0 where
  takes_all :
      (price : Double) (l : Levels)
      → lookup o.order_id b.order_index ≡ some (record { side = s; price = price })
      → leb_ℤ (remaining_after o executed) quantity_tolerance ≡ true
      → b' ≡ without b o.order_id s l
      → Removed s o.order_id price o (levels_of s b) l
      → FrontFill b s o executed b'
  takes_part :
      (price : Double) (l : Levels)
      → lookup o.order_id b.order_index ≡ some (record { side = s; price = price })
      → leb_ℤ (remaining_after o executed) quantity_tolerance ≡ false
      → b' ≡ with_levels s l b
      → Reduced s o.order_id price executed o (levels_of s b) l
      → FrontFill b s o executed b'

module _ (b : OrderBook) (s : OrderSide) (o : RestingOrder) (executed : Double) (v : IsValid b)
    (h : front_order (levels_of s b) ≡ some o) where
  -- The fill of the front order succeeds.
  pub apply_fill-FrontFill :
      quantity_tolerance <ℤ executed
      → executed ≤ℤ o.remaining_quantity
      → (b' : OrderBook) × (apply_fill b o.order_id executed ≡ (b', true))
        × FrontFill b s o executed b'
  apply_fill-FrontFill lo hi =
      by_case (front_order-FrontFound b s o v h) (apply_fill-FillCase b o.order_id executed v)
    where
      by_case :
          FrontFound b s o
          → FillCase b o.order_id executed
          → (b' : OrderBook) × (apply_fill b o.order_id executed ≡ (b', true))
            × FrontFill b s o executed b'
      by_case ff (FillCase.within_tolerance x e) = absurd (ground arith)
      by_case ff (FillCase.unknown x e) = absurd (cc (ff.index_is, x))
      by_case ff (FillCase.too_much o' f m e) =
          let same : o' ≡ o = some_inj (sym f ∙ ff.found) in
          let m' : ltb_ℤ (o.remaining_quantity +ℤ quantity_tolerance) executed ≡ true =
            subst (λ x. ltb_ℤ (x.remaining_quantity +ℤ quantity_tolerance) executed ≡ true) same
              m in
          absurd (ground (arith, +ℤ_parts o.remaining_quantity quantity_tolerance))
      by_case ff (FillCase.takes_all at o' l i f m a e w) =
          let same : o' ≡ o = some_inj (sym f ∙ ff.found) in
          let place : at ≡ record { side = s; price = ff.price } = some_inj (sym i ∙ ff.index_is) in
          (
            without b o.order_id s l,
            e ∙ ap (λ x. (without b o.order_id x.side l, true)) place,
            takes_all ff.price l ff.index_is
                (subst (λ x. leb_ℤ (remaining_after x executed) quantity_tolerance ≡ true) same a)
                refl
                (subst (λ x. Removed s o.order_id ff.price x (levels_of s b) l) same
                  (subst (λ x. Removed x.side o.order_id x.price o' (levels_of x.side b) l) place
                    w)),
          )
      by_case ff (FillCase.takes_part at o' l i f m a e w) =
          let same : o' ≡ o = some_inj (sym f ∙ ff.found) in
          let place : at ≡ record { side = s; price = ff.price } = some_inj (sym i ∙ ff.index_is) in
          (
            with_levels s l b,
            e ∙ ap (λ x. (with_levels x.side l b, true)) place,
            takes_part ff.price l ff.index_is
                (subst (λ x. leb_ℤ (remaining_after x executed) quantity_tolerance ≡ false) same a)
                refl
                (subst (λ x. Reduced s o.order_id ff.price executed x (levels_of s b) l) same
                  (subst (λ x. Reduced x.side o.order_id x.price executed o' (levels_of x.side b) l)
                    place w)),
          )

-- The book after the fill is valid.
pub FrontFill-IsValid :
    (b : OrderBook) (s : OrderSide) (o : RestingOrder) (executed : Double) (b' : OrderBook)
    → IsValid b
    → FrontFill b s o executed b'
    → IsValid b'
FrontFill-IsValid b s o executed b' v (takes_all price l i a e w) =
    subst IsValid (sym e)
      (without-IsValid b o.order_id (record { side = s; price = price }) o l v i w)
FrontFill-IsValid b s o executed b' v (takes_part price l i a e w) =
    subst IsValid (sym e) (with_levels-IsValid b o.order_id s price executed o l v w)
