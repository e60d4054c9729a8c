-- ===== src/OrderBook/Changes.antt =====
-- How `erase_from_levels` and `apply_fill_to_levels` of src/execution/order_book.cpp change the
-- levels of a side that holds the order once, at the price looked at.
use mathlib.Core.Option
use wall.Core.{Double, OrderSide, quantity_tolerance}
use wall.OrderBook.PriceLevels.{
  FillOutcome, Levels, QueueOutcome, RestingOrder, apply_fill_to_levels, consumed,
  erase_from_levels, find_in_queue, level_find, reduced, refused, remaining_after,
}
use wall.OrderBook.Queues.{
  Fills, Reduces, Removes, erase_from_queue_cases, fill_queue-Fills, find_in_queue-held,
  reduced_order,
}
use wall.OrderBook.Ranked.{IsRanked}
use wall.OrderBook.Replace.{
  apply_fill_to_levels-replace, erase_from_levels-replace, replace_queue, replace_queue-IsRanked,
  replaced,
}
use wall.OrderBook.Stocked.{Belongs, IsStocked, level_find-Belongs, replace_queue-IsStocked}
use wall.OrderBook.Weigh.{Weight, is_at, weigh, weigh-is_at, weigh-replace_queue}
use wall.Prelude.{
  List, String, [], ap, arith, false, inl, inr, some, some_inj, subst, sym, true, ◌+◌, ◌∙◌, ◌∷◌,
  ◌≡◌, ◌≢◌,
}
use wall.Prelude.Int.{leb_ℤ, ltb_ℤ, ◌+ℤ◌, ◌<ℤ◌}

-- The levels `l'` are `ls` without the order `o`.
pub record Removed (s : OrderSide) (k : String) (p : Double) (o : RestingOrder) (ls l' : Levels)
    : Type 0 where
  pub id_is : o.order_id ≡ k
  pub belongs : Belongs s p o
  pub weight : (f : Weight) → weigh f l' + f p o ≡ weigh f ls
  pub ranked : IsRanked s l'
  pub stocked : IsStocked s l'

-- The levels `l'` are `ls` with a fill taken off the order `o`.
pub record Reduced (s : OrderSide) (k : String) (p executed : Double) (o : RestingOrder)
    (ls l' : Levels) : Type 0 where
  pub id_is : o.order_id ≡ k
  pub belongs : Belongs s p o
  pub weight : (f : Weight) → weigh f l' + f p o ≡ weigh f ls + f p (reduced_order o executed)
  pub ranked : IsRanked s l'
  pub stocked : IsStocked s l'

found_ne_nil :
    (k : String) (q : List RestingOrder) (o : RestingOrder) → find_in_queue k q ≡ some o → q ≢ []
unfolding find_in_queue
found_ne_nil k [] o h e = cc
found_ne_nil k (x ∷ q) o h e = cc

module _ (s : OrderSide) (k : String) (p : Double) (ls : Levels) (r : IsRanked s ls)
    (st : IsStocked s ls) where
  replace_queue-Removed :
      (o : RestingOrder) (q' : List RestingOrder)
      → find_in_queue k (level_find p ls) ≡ some o
      → Removes k o (level_find p ls) q'
      → Removed s k p o ls (replace_queue p q' ls)
  replace_queue-Removed o q' f rm =
      let (b, bs) = rm.belong s p (level_find-Belongs s p ls st) in
      record {
        id_is = rm.id_is;
        belongs = b;
        weight = λ g. omega (
          arith,
          rm.weight g p,
          weigh-replace_queue g p q' ls (found_ne_nil k (level_find p ls) o f),
        );
        ranked = replace_queue-IsRanked s p q' ls r;
        stocked = replace_queue-IsStocked s p q' ls bs st;
      }

  replace_queue-Reduced :
      (executed : Double) (o : RestingOrder) (q' : List RestingOrder)
      → find_in_queue k (level_find p ls) ≡ some o
      → leb_ℤ (remaining_after o executed) quantity_tolerance ≡ false
      → Reduces k o executed (level_find p ls) q'
      → Reduced s k p executed o ls (replace_queue p q' ls)
  replace_queue-Reduced executed o q' f part rd =
      let left : quantity_tolerance <ℤ remaining_after o executed = ground arith in
      let (b, bs) = rd.belong s p (level_find-Belongs s p ls st) left in
      record {
        id_is = rd.id_is;
        belongs = b;
        weight = λ g. omega (
          arith,
          rd.weight g p,
          weigh-replace_queue g p q' ls (found_ne_nil k (level_find p ls) o f),
        );
        ranked = replace_queue-IsRanked s p q' ls r;
        stocked = replace_queue-IsStocked s p q' ls bs st;
      }

  -- The order that stands at the price is found.
  pub find_held :
      weigh (is_at k p) ls ≡ 1 → (o : RestingOrder) × (find_in_queue k (level_find p ls) ≡ some o)
  find_held h = find_in_queue-held k p (level_find p ls) (omega (arith, weigh-is_at k s p ls r))

  -- It is erased with success.
  pub erase_from_levels-Removed :
      (o : RestingOrder)
      → find_in_queue k (level_find p ls) ≡ some o
      → (l' : Levels) × (erase_from_levels k p ls ≡ some l') × Removed s k p o ls l'
  erase_from_levels-Removed o f = elim (erase_from_queue_cases k (level_find p ls)) [
    | inl (g, e) ↦ absurd (cc)
    | inr (o', q', g, e, rm) ↦
        let same : o' ≡ o = some_inj (sym g ∙ f) in
        (
          replace_queue p q' ls,
          erase_from_levels-replace k p ls ∙ ap (Option.map (λ q. replace_queue p q ls)) e,
          replace_queue-Removed o q' f (subst (λ x. Removes k x (level_find p ls) q') same rm),
        )
  ]

-- What a fill does to the levels, by the order that it finds.
pub data LevelFills (s : OrderSide) (k : String) (p executed : Double) (ls : Levels)
    (o : RestingOrder) (r : FillOutcome) : Type 0 where
  too_much :
      ltb_ℤ (o.remaining_quantity +ℤ quantity_tolerance) executed ≡ true
      → r ≡ refused
      → LevelFills s k p executed ls o r
  takes_all :
      (l' : Levels)
      → ltb_ℤ (o.remaining_quantity +ℤ quantity_tolerance) executed ≡ false
      → leb_ℤ (remaining_after o executed) quantity_tolerance ≡ true
      → r ≡ consumed l'
      → Removed s k p o ls l'
      → LevelFills s k p executed ls o r
  takes_part :
      (l' : Levels)
      → ltb_ℤ (o.remaining_quantity +ℤ quantity_tolerance) executed ≡ false
      → leb_ℤ (remaining_after o executed) quantity_tolerance ≡ false
      → r ≡ reduced l'
      → Reduced s k p executed o ls l'
      → LevelFills s k p executed ls o r

module _ (s : OrderSide) (k : String) (p : Double) (ls : Levels) (r : IsRanked s ls)
    (st : IsStocked s ls) where
  Fills-LevelFills :
      (executed : Double) (o : RestingOrder) (out : QueueOutcome)
      → find_in_queue k (level_find p ls) ≡ some o
      → Fills k executed (level_find p ls) o out
      → LevelFills s k p executed ls o (replaced p ls out)
  Fills-LevelFills executed o out f (Fills.too_much m e) = too_much m (ap (replaced p ls) e)
  Fills-LevelFills executed o out f (Fills.takes_all q' a b e w) =
      takes_all (replace_queue p q' ls) a b (ap (replaced p ls) e)
        (replace_queue-Removed s k p ls r st o q' f w)
  Fills-LevelFills executed o out f (Fills.takes_part q' a b e w) =
      takes_part (replace_queue p q' ls) a b (ap (replaced p ls) e)
        (replace_queue-Reduced s k p ls r st executed o q' f b w)

  pub apply_fill_to_levels-LevelFills :
      (executed : Double) (o : RestingOrder)
      → find_in_queue k (level_find p ls) ≡ some o
      → LevelFills s k p executed ls o (apply_fill_to_levels k executed p ls)
  apply_fill_to_levels-LevelFills executed o f =
      rw (apply_fill_to_levels-replace k executed p ls)
        (Fills-LevelFills executed o _ f (fill_queue-Fills k executed (level_find p ls) o f))
