-- ===== src/MatchingEngine/Priority.antt =====
-- In which order `submit` of src/execution/matching_engine.cpp takes the resting orders.
use mathlib.Core.List.{append-nil, append_assoc}
use mathlib.Core.Path.{ap₂}
use wall.Core.{Double, FillEvent, OrderRequest, OrderSide, buy, quantity_tolerance, sell}
use wall.MatchingEngine.Matches.{
  MatchRound, MatchRound-used_up, executed_in, match_loop-step, match_loop-stopped,
  match_step-used_up, match_step_cases,
}
use wall.MatchingEngine.Rounds.{FrontFill-IsValid}
use wall.MatchingEngine.Submit.{Matching, match_loop, opposite, taker_fill}
use wall.OrderBook.{OrderBook, OrderLocator, apply_fill, find_order}
use wall.OrderBook.Front.{FrontFound, front_order-FrontFound}
use wall.OrderBook.Ladder.{
  AbstractBook, Ladder, entries, fills_at, held, ladder, remove, replace, side_of, view, with_side,
}
use wall.OrderBook.Ladder.Held.{HeldCase, absent, held_cases, present}
use wall.OrderBook.Ladder.Refines.{apply_fill_refines, seen, side_of-view}
use wall.OrderBook.PriceLevels.{RestingOrder, remaining_after}
use wall.OrderBook.Queues.{reduced_order}
use wall.OrderBook.Validity.{IsValid}
use wall.Prelude.{
  Bool, Bool-cases, List, String, [], ap, arith, false, inl, inr, refl, some, some_inj, subst, suc,
  sym, true, value_or, zero, ℕ, ◌++◌, ◌∙◌, ◌∷◌, ◌≡◌, ◌⊎◌,
}
use wall.Prelude.Int.{+ℤ_parts, leb_ℤ, ltb_ℤ, max_ℤ, min_ℤ, pos, ◌+ℤ◌, ◌-ℤ◌, ◌<ℤ◌, -ℤ_parts}

-- Fills that take orders from the front of a side, each of them whole, but for the last, which may
-- leave its order in front with less.
pub data Taken : Ladder → List FillEvent → Ladder → Type 0 where
  nothing : (l : Ladder) → Taken l [] l
  whole :
      (p : Double) (o : RestingOrder) (f : FillEvent) {l l' : Ladder} {fs : List FillEvent}
      → f.price ≡ p
      → leb_ℤ (remaining_after o f.quantity) quantity_tolerance ≡ true
      → Taken l fs l'
      → Taken ((p, o) ∷ l) (f ∷ fs) l'
  part :
      (p : Double) (o : RestingOrder) (f : FillEvent) (l : Ladder)
      → f.price ≡ p
      → leb_ℤ (remaining_after o f.quantity) quantity_tolerance ≡ false
      → Taken ((p, o) ∷ l) (f ∷ []) ((p, reduced_order o f.quantity) ∷ l)

side_of-with_side :
    (s : OrderSide) (l : Ladder) (a : AbstractBook) → side_of s (with_side s l a) ≡ l
side_of-with_side buy l a = refl
side_of-with_side sell l a = refl

front_held :
    (b : OrderBook) (s : OrderSide) (o : RestingOrder)
    → IsValid b
    → FrontFound b s o
    → held o.order_id (view b) ≡ some (s, o)
unfolding find_order
front_held b s o v ff = by_case (held_cases b o.order_id v)
  where
    by_case : HeldCase b o.order_id → held o.order_id (view b) ≡ some (s, o)
    by_case (absent i h) = absurd (cc (i, ff.index_is))
    by_case (present at o' i h once f) =
        let place : at ≡ record { side = s; price = ff.price } = some_inj (sym i ∙ ff.index_is) in
        let same : o' ≡ o = some_inj (sym f ∙ (rw i at ff.found)) in
        h ∙ ap₂ (λ (y : OrderLocator) (z : RestingOrder). some (y.side, z)) place same

module _ (b b' : OrderBook) (s : OrderSide) (o : RestingOrder) (x : Double) (v : IsValid b)
    (ff : FrontFound b s o) (big : leb_ℤ x quantity_tolerance ≡ false)
    (fits : ltb_ℤ (o.remaining_quantity +ℤ quantity_tolerance) x ≡ false)
    (done : apply_fill b o.order_id x ≡ (b', true)) where
  front-ladder : side_of s (view b) ≡ (ff.price, o) ∷ (entries ff.price ff.queue ++ ladder ff.rest)
  unfolding ladder
  front-ladder = side_of-view s b ∙ ap ladder ff.levels_are

  filled_view : view b' ≡ (fills_at (view b) o.order_id x (some (s, o))).0
  filled_view =
      let step : seen (apply_fill b o.order_id x) ≡ fills_at (view b) o.order_id x (some (s, o)) =
        apply_fill_refines b o.order_id v x ∙ rw (big, front_held b s o v ff) refl in
      ap (λ (y : OrderBook × Bool). view y.0) (sym done)
      ∙ ap (λ (y : AbstractBook × Bool). y.0) step

  -- An order that is used up goes from the front.
  front_used_up :
      leb_ℤ (remaining_after o x) quantity_tolerance ≡ true
      → side_of s (view b') ≡ entries ff.price ff.queue ++ ladder ff.rest
  unfolding remove
  front_used_up all =
      ap (side_of s) (filled_view ∙ rw (fits, all) refl)
      ∙ side_of-with_side s _ (view b)
      ∙ ap (remove o.order_id) front-ladder
      ∙ ground arith

  -- An order that is not stays in front with less.
  front_lessened :
      leb_ℤ (remaining_after o x) quantity_tolerance ≡ false
      → side_of s (view b')
        ≡ (ff.price, reduced_order o x) ∷ (entries ff.price ff.queue ++ ladder ff.rest)
  unfolding replace
  front_lessened some_left =
      ap (side_of s) (filled_view ∙ rw (fits, some_left) refl)
      ∙ side_of-with_side s _ (view b)
      ∙ ap (replace o.order_id (reduced_order o x)) front-ladder
      ∙ ground arith

module _ (r : OrderRequest) (k : String) where
  abbrev pub opposite_ladder : OrderBook → Ladder
  opposite_ladder b = side_of (opposite r.side) (view b)

  -- A round takes the front order whole, or uses the incoming quantity up and lessens it.
  record RoundTaken (s s' : Matching) (m : MatchRound r k s s') : Type 0 where
    price : Double
    behind : Ladder
    before_is : opposite_ladder s.book ≡ (price, m.o) ∷ behind
    price_is : (taker_fill r k m.o (executed_in s m.o) s.next_fill_id).price ≡ price
    after_is :
        ((leb_ℤ (remaining_after m.o (executed_in s m.o)) quantity_tolerance ≡ true)
          × (opposite_ladder s'.book ≡ behind))
        ⊎ ((leb_ℤ (remaining_after m.o (executed_in s m.o)) quantity_tolerance ≡ false)
            × (opposite_ladder s'.book ≡ (price, reduced_order m.o (executed_in s m.o)) ∷ behind)
            × (leb_ℤ s'.remaining_quantity quantity_tolerance ≡ true))

  round-RoundTaken :
      (s s' : Matching) (m : MatchRound r k s s') → IsValid s.book → RoundTaken s s' m
  round-RoundTaken s s' m v =
      let side = opposite r.side in
      let x : Double = executed_in s m.o in
      let ff = front_order-FrontFound s.book side m.o v m.front in
      let big : leb_ℤ x quantity_tolerance ≡ false =
        above s.remaining_quantity (m.o).remaining_quantity m.enough ff.belongs.left in
      let fits : ltb_ℤ ((m.o).remaining_quantity +ℤ quantity_tolerance) x ≡ false =
        within s.remaining_quantity (m.o).remaining_quantity in
      record {
        price = ff.price;
        behind = entries ff.price ff.queue ++ ladder ff.rest;
        before_is = front-ladder s.book s'.book side m.o x v ff big fits m.done;
        price_is = ap (λ y. value_or y (pos 0)) ff.belongs.price_is;
        after_is = elim (Bool-cases (leb_ℤ (remaining_after m.o x) quantity_tolerance)) [
          | inl all ↦ inl (all, front_used_up s.book s'.book side m.o x v ff big fits m.done all)
          | inr some_left ↦ inr (
            some_left,
            front_lessened s.book s'.book side m.o x v ff big fits m.done some_left,
            MatchRound-used_up r k s s' m (less (m.o).remaining_quantity x some_left),
          )
        ];
      }
    where
      above :
          (a c : Double)
          → quantity_tolerance <ℤ a
          → quantity_tolerance <ℤ c
          → leb_ℤ (min_ℤ a c) quantity_tolerance ≡ false
      above a c h g = ground arith

      within : (a c : Double) → ltb_ℤ (c +ℤ quantity_tolerance) (min_ℤ a c) ≡ false
      within a c = ground (arith, +ℤ_parts c quantity_tolerance)

      less : (c x : Double) → leb_ℤ (max_ℤ (pos 0) (c -ℤ x)) quantity_tolerance ≡ false → x <ℤ c
      less c x h = ground (arith, -ℤ_parts c x)

  pub match_loop-Taken :
      (fuel : ℕ) (s : Matching)
      → IsValid s.book
      → (fs : List FillEvent) × ((match_loop fuel r k s).fills ≡ s.fills ++ fs)
        × Taken (opposite_ladder s.book) fs (opposite_ladder (match_loop fuel r k s).book)
  unfolding match_loop
  match_loop-Taken zero s v = ([], sym (append-nil s.fills), nothing _)
  match_loop-Taken (suc fuel) s v = elim (match_step_cases r k s v) [
    | inl (e, over) ↦
        rw (match_loop-stopped r k (suc fuel) s e) ([], sym (append-nil s.fills), nothing _)
    | inr (s', e, m) ↦ rw (match_loop-step r k fuel s s' e) (
        round s' m (round-RoundTaken s s' m v) (
          match_loop-Taken fuel s'
            (FrontFill-IsValid s.book (opposite r.side) m.o (executed_in s m.o) s'.book v m.fill)))
  ]
    where
      round :
          (s' : Matching) (m : MatchRound r k s s')
          → RoundTaken s s' m
          → (fs : List FillEvent) × ((match_loop fuel r k s').fills ≡ s'.fills ++ fs)
            × Taken (opposite_ladder s'.book) fs (opposite_ladder (match_loop fuel r k s').book)
          → (fs : List FillEvent) × ((match_loop fuel r k s').fills ≡ s.fills ++ fs)
            × Taken (opposite_ladder s.book) fs (opposite_ladder (match_loop fuel r k s').book)
      round s' m t (fs, e, taken) =
          let f = taker_fill r k m.o (executed_in s m.o) s.next_fill_id in
          elim t.after_is [
            | inl (all, after) ↦ (
              f ∷ fs,
              e ∙ ap (λ x. x ++ fs) m.fills_are ∙ append_assoc s.fills (f ∷ []) fs,
              subst (λ l. Taken l (f ∷ fs) (opposite_ladder (match_loop fuel r k s').book))
                  (sym t.before_is)
                  (whole t.price m.o f t.price_is all (
                    subst (λ l. Taken l fs (opposite_ladder (match_loop fuel r k s').book)) after
                      taken)),
            )
            | inr (some_left, after, used) ↦
                let stop = match_loop-stopped r k fuel s' (match_step-used_up r k s' used) in
                (
                  f ∷ [],
                  ap (λ (x : Matching). x.fills) stop ∙ m.fills_are,
                  subst
                      (λ (x : Matching).
                        Taken (opposite_ladder s.book) (f ∷ []) (opposite_ladder x.book))
                      (sym stop)
                      (subst (λ l. Taken l (f ∷ []) (opposite_ladder s'.book)) (sym t.before_is)
                        (subst (λ l. Taken ((t.price, m.o) ∷ t.behind) (f ∷ []) l) (sym after)
                          (part t.price m.o f t.behind t.price_is some_left))),
                )
          ]
