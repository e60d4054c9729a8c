-- ===== src/OrderBook/Ladder/Taking.antt =====
-- Where src/execution/order_book.cpp finds an order, takes it out or lessens it, the abstract book
-- does so at the same place of its list.
use mathlib.Core.Option
use wall.Core.{Double, OrderSide}
use wall.OrderBook.{rest}
use wall.OrderBook.Ladder.{Ladder, entries, find, ladder, remove, replace}
use wall.OrderBook.Operations.{is_id_self}
use wall.OrderBook.PriceLevels.{
  Levels, RestingOrder, erase_from_levels, erase_from_queue, find_in_queue, level_find, with_queue,
}
use wall.OrderBook.Replace.{erase_from_levels-replace, replace_queue}
use wall.OrderBook.Validity.{weigh-is_at-le}
use wall.OrderBook.Weigh.{is_at, is_id, weigh, weigh_queue, weigh_queue-is_at_off}
use wall.Prelude.{
  List, Option-cases, String, [], ap, arith, false, if_neg, inl, inr, refl, some, some_inj, sym,
  ◌++◌, ◌∙◌, ◌∷◌, ◌≡◌, ◌≢◌,
}
use wall.Prelude.Int.{eqb_ℤ, ℤ_cases}
use wall.Prelude.Text.{dec_str}

module _ (k : String) where
  pub find-pass :
      (p : Double) (q : List RestingOrder) (l : Ladder)
      → weigh_queue (is_id k) p q ≡ 0
      → find k (entries p q ++ l) ≡ find k l
  unfolding find weigh_queue
  find-pass p [] l h = refl
  find-pass p (x ∷ q) l h = ground (arith, find-pass p q l)

  find-hit :
      (p : Double) (q : List RestingOrder) (l : Ladder) (o : RestingOrder)
      → find_in_queue k q ≡ some o
      → find k (entries p q ++ l) ≡ some o
  unfolding find find_in_queue
  find-hit p [] l o h = cc
  find-hit p (x ∷ q) l o h = ground (arith, find-hit p q l o)

  -- An edit of a ladder leaves the orders of other identifiers where they are.
  abbrev pub Passes : (Ladder → Ladder) → Type 0
  Passes f =
      (p : Double) (x : RestingOrder) (l : Ladder) → x.order_id ≢ k → f ((p, x) ∷ l) ≡ (p, x) ∷ f l

  pub remove-Passes : Passes (remove k)
  unfolding remove
  remove-Passes p x l h = ground arith

  pub replace-Passes : (y : RestingOrder) → Passes (replace k y)
  unfolding replace
  replace-Passes y p x l h = ground arith

  edit-pass :
      (f : Ladder → Ladder)
      → Passes f
      → (p : Double) (q : List RestingOrder) (l : Ladder) → weigh_queue (is_id k) p q ≡ 0
      → f (entries p q ++ l) ≡ entries p q ++ f l
  unfolding weigh_queue
  edit-pass f pass p [] l h = refl
  edit-pass f pass p (x ∷ q) l h =
      pass p x (entries p q ++ l) (λ e. absurd (ground (arith, is_id_self k p x e)))
      ∙ ap (◌∷◌ (p, x)) (edit-pass f pass p q l (omega arith))

  ladder-with_queue :
      (p : Double) (q : List RestingOrder) (ls : Levels)
      → ladder (with_queue p q ls) ≡ entries p q ++ ladder ls
  unfolding ladder
  ladder-with_queue p [] ls = refl
  ladder-with_queue p (x ∷ q) ls = refl

  module _ (s : OrderSide) (price : Double) where
    -- The identifier rests once, and at this price.
    abbrev pub Once : Levels → Type 0
    Once ls = (weigh (is_id k) ls ≡ 1) × (weigh (is_at k price) ls ≡ 1)

    Once-tail :
        (p : Double) (q : List RestingOrder) (ls : Levels)
        → eqb_ℤ p price ≡ false
        → Once ((p, q) ∷ ls)
        → (weigh_queue (is_id k) p q ≡ 0) × Once ls
    unfolding weigh
    Once-tail p q ls h o =
        let off = weigh_queue-is_at_off k price p q h in
        let le = weigh-is_at-le k price ls in (omega arith, (omega arith, omega arith))

    pub find-ladder :
        (ls : Levels) (o : RestingOrder)
        → Once ls
        → find_in_queue k (level_find price ls) ≡ some o
        → find k (ladder ls) ≡ some o
    unfolding ladder level_find weigh find_in_queue
    find-ladder [] o once h = cc
    find-ladder ((p, q) ∷ ls) o once h = elim (ℤ_cases p price) [
      | inl lt ↦
          let (off, rest) = Once-tail p q ls (ground arith) once in
          find-pass p q (ladder ls) off ∙ find-ladder ls o rest (rw lt at h)
      | inr (inl (ge, gt)) ↦
          let (off, rest) = Once-tail p q ls (ground arith) once in
          find-pass p q (ladder ls) off ∙ find-ladder ls o rest (rw (ge, gt) at h)
      | inr (inr (ge, le, same)) ↦ find-hit p q (ladder ls) o (rw (ge, le) at h)
    ]

    pub edit-ladder :
        (f : Ladder → Ladder) (q' : List RestingOrder)
        → Passes f
        → (ls : Levels) → Once ls
        → ((p : Double) (l : Ladder) → f (entries p (level_find price ls) ++ l) ≡ entries p q' ++ l)
        → f (ladder ls) ≡ ladder (replace_queue price q' ls)
    unfolding ladder level_find weigh replace_queue
    edit-ladder f q' pass [] once hit = absurd (omega arith)
    edit-ladder f q' pass ((p, q) ∷ ls) once hit = elim (ℤ_cases p price) [
      | inl lt ↦
          let (off, rest) = Once-tail p q ls (ground arith) once in
          rw lt (
            edit-pass f pass p q (ladder ls) off
            ∙ ap (λ l. entries p q ++ l) (edit-ladder f q' pass ls rest (rw lt at hit)))
      | inr (inl (ge, gt)) ↦
          let (off, rest) = Once-tail p q ls (ground arith) once in
          rw (ge, gt)
            (edit-pass f pass p q (ladder ls) off
              ∙ ap (λ l. entries p q ++ l) (edit-ladder f q' pass ls rest (rw (ge, gt) at hit)))
      | inr (inr (ge, le, same)) ↦
          rw (ge, le) ((rw (ge, le) at hit) p (ladder ls) ∙ sym (ladder-with_queue p q' ls))
    ]

  remove-hit :
      (p : Double) (q q' : List RestingOrder) (l : Ladder)
      → erase_from_queue k q ≡ some q'
      → remove k (entries p q ++ l) ≡ entries p q' ++ l
  unfolding remove erase_from_queue
  remove-hit p [] q' l h = cc
  remove-hit p (x ∷ q) q' l h = elim (dec_str x.order_id k) [
    | yes hit ↦ ground arith
    | no miss ↦ elim (Option-cases (erase_from_queue k q)) [
      | inl e ↦ absurd (ground arith)
      | inr (q2, e) ↦
          let same : q' ≡ x ∷ q2 = ground arith in
          rw (if_neg _ miss, same) (ap (◌∷◌ (p, x)) (remove-hit p q q2 l e))
    ]
  ]

  -- A cancelled order leaves the ladder.
  pub remove-ladder :
      (s : OrderSide) (price : Double) (ls l' : Levels)
      → Once s price ls
      → erase_from_levels k price ls ≡ some l'
      → remove k (ladder ls) ≡ ladder l'
  remove-ladder s price ls l' once h =
      elim (Option-cases (erase_from_queue k (level_find price ls))) [
        | inl e ↦ absurd (cc (erase_from_levels-replace k price ls))
        | inr (q', e) ↦
            edit-ladder s price (remove k) q' remove-Passes ls once
              (λ p l. remove-hit p (level_find price ls) q' l e)
            ∙ ap ladder (
                some_inj (
                  sym (ap (Option.map (λ q. replace_queue price q ls)) e)
                  ∙ sym (erase_from_levels-replace k price ls)
                  ∙ h))
      ]
