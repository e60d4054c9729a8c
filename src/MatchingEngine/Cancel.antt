-- ===== src/MatchingEngine/Cancel.antt =====
-- What a cancel of src/execution/matching_engine.cpp leaves behind.
use wall.Core.{
  ExecutionResult, OrderRecord, OrderSide, OrderUpdate, canceled, is_terminal, rejected,
}
use wall.MatchingEngine.{MatchingEngine, set_status}
use wall.MatchingEngine.Books.{BookAt, HasValidBooks}
use wall.MatchingEngine.Calls.{cancel-HasValidBooks}
use wall.MatchingEngine.Lifecycle.{cancel, canceled_in}
use wall.OrderBook.{OrderBook, cancel_order}
use wall.OrderBook.Operations.{without, without-index}
use wall.OrderBook.PriceLevels.{Levels}
use wall.OrderBook.Safety.{cancel_order_cases}
use wall.Prelude.{
  Bool-cases, List, Option-cases, String, [], ap, arith, foldl, inl, inr, none, refl, some, subst,
  sym, true, ◌∙◌, ◌∷◌, ◌≡◌, ◌≢◌,
}
use wall.Prelude.Dict.{
  insert, lookup, lookup-erase_ne, lookup-insert_ne, lookup-insert_self, lookup-modify,
}
use wall.Prelude.Text.{dec_str}

abbrev pub IsRejection : ExecutionResult → Type 0
IsRejection result = (u : OrderUpdate) × (result.updates ≡ u ∷ []) × (u.status ≡ rejected)

-- A cancel of the order, under any client identifier, is refused and changes nothing.
abbrev pub IsRefused : MatchingEngine → String → String → Type 0
IsRefused m k c = ((cancel m k c).0 ≡ m) × IsRejection (cancel m k c).1

-- The order is not known, or ended, or its book has not got it.
data IsGone (m : MatchingEngine) (k : String) : Type 0 where
  unknown_order : lookup k m.orders ≡ none → IsGone m k
  ended_order :
      (o : OrderRecord) → lookup k m.orders ≡ some o → is_terminal o.status ≡ true → IsGone m k
  unlisted_order :
      (o : OrderRecord)
      → lookup k m.orders ≡ some o
      → ((b : OrderBook) → lookup o.instrument_id m.books ≡ some b → lookup k b.order_index ≡ none)
      → IsGone m k

-- A cancel changes nothing and the order is gone, or it takes the order off its book.
data CancelStep (m : MatchingEngine) (k c : String) : Type 0 where
  refused_step : IsGone m k → (cancel m k c).0 ≡ m → CancelStep m k c
  accepted_step :
      (o : OrderRecord) (b : OrderBook) (s : OrderSide) (l : Levels)
      → lookup k m.orders ≡ some o
      → lookup o.instrument_id m.books ≡ some b
      → (cancel m k c).0 ≡ (canceled_in m o k (without b k s l, true)).0
      → CancelStep m k c

gone-IsRefused : (m : MatchingEngine) (k c : String) → IsGone m k → IsRefused m k c
unfolding cancel cancel_order
gone-IsRefused m k c (unknown_order e) = rw e (refl, (_, refl, refl))
gone-IsRefused m k c (ended_order o e t) = rw (e, t) (refl, (_, refl, refl))
gone-IsRefused m k c (unlisted_order o e h) = elim (Bool-cases (is_terminal o.status)) [
  | inl t ↦ rw (e, t) (refl, (_, refl, refl))
  | inr t ↦ elim (Option-cases (lookup o.instrument_id m.books)) [
    | inl f ↦ rw (e, t, f) (refl, (_, refl, refl))
    | inr (b, f) ↦ rw (e, t, f, h b f) (refl, (_, refl, refl))
  ]
]

-- The one book that stands under an instrument.
same_book :
    (m : MatchingEngine) (i k : String) (b : OrderBook)
    → lookup i m.books ≡ some b
    → lookup k b.order_index ≡ none
    → (b' : OrderBook) → lookup i m.books ≡ some b'
    → lookup k b'.order_index ≡ none
same_book m i k b f h b' f' = ground (arith, f, f')

cancel_step : (m : MatchingEngine) (k c : String) → HasValidBooks m → CancelStep m k c
unfolding cancel
cancel_step m k c v = elim (Option-cases (lookup k m.orders)) [
  | inl e ↦ refused (unknown_order e)
  | inr (o, e) ↦ elim (Bool-cases (is_terminal o.status)) [
    | inl t ↦ refused (ended_order o e t)
    | inr t ↦ elim (Option-cases (lookup o.instrument_id m.books)) [
      | inl f ↦ refused (unlisted_order o e (λ b h. absurd (cc)))
      | inr (b, f) ↦
          elim (cancel_order_cases b k
            (subst (BookAt o.instrument_id) f (v.book_at o.instrument_id)).0) [
              | inl (h, _) ↦ refused (unlisted_order o e (same_book m o.instrument_id k b f h))
              | inr (at, _, l, _, _, q, _) ↦
                  accepted_step o b at.side l e f
                    (rw (e, t, f) (ap (λ x. (canceled_in m o k x).0) q))
            ]
    ]
  ]
]
  where
    refused : IsGone m k → CancelStep m k c
    refused g = refused_step g (gone-IsRefused m k c g).0

canceled_record :
    (m : MatchingEngine) (k : String) (o : OrderRecord)
    → lookup k m.orders ≡ some o
    → lookup k (set_status k canceled m.orders) ≡ some (record o { status = canceled })
canceled_record m k o e =
    ground (arith, lookup-modify k k (λ x. record x { status = canceled }) m.orders)

other_record :
    (m : MatchingEngine) (j k : String)
    → k ≢ j
    → lookup k (set_status j canceled m.orders) ≡ lookup k m.orders
other_record m j k n =
    ground (arith, lookup-modify k j (λ x. record x { status = canceled }) m.orders)

cancel_self-IsGone :
    (m : MatchingEngine) (k c : String) → HasValidBooks m → IsGone (cancel m k c).0 k
cancel_self-IsGone m k c v = elim (cancel_step m k c v) [
  | refused_step g q ↦ subst (λ x. IsGone x k) (sym q) g
  | accepted_step o b s l e f q ↦
      subst (λ x. IsGone x k) (sym q)
        (ended_order (record o { status = canceled }) (canceled_record m k o e) refl)
]

-- An order that is gone stays so when another is taken off its book.
without-IsGone :
    (m : MatchingEngine) (j k : String) (o : OrderRecord) (b : OrderBook) (s : OrderSide)
    (l : Levels)
    → k ≢ j
    → lookup o.instrument_id m.books ≡ some b
    → IsGone m k
    → IsGone (canceled_in m o j (without b j s l, true)).0 k
without-IsGone m j k o b s l n f (unknown_order e) = unknown_order (other_record m j k n ∙ e)
without-IsGone m j k o b s l n f (ended_order p e t) = ended_order p (other_record m j k n ∙ e) t
without-IsGone m j k o b s l n f (unlisted_order p e u) =
    unlisted_order p (other_record m j k n ∙ e) (λ b' g.
      elim (dec_str p.instrument_id o.instrument_id) [
        | yes same ↦
            same_book (canceled_in m o j (without b j s l, true)).0 p.instrument_id k
              (without b j s l)
              (subst
                (λ i.
                  lookup i (insert o.instrument_id (without b j s l) m.books)
                  ≡ some (without b j s l))
                (sym same) (lookup-insert_self o.instrument_id (without b j s l) m.books))
              (ap (lookup k) (without-index b j s l)
                ∙ lookup-erase_ne k j b.order_index n
                ∙ u b (ap (λ i. lookup i m.books) same ∙ f))
              b' g
        | no differ ↦ u b' (
            sym (lookup-insert_ne p.instrument_id o.instrument_id (without b j s l) m.books differ)
            ∙ g)
      ])

cancel_other-IsGone :
    (m : MatchingEngine) (j k c : String)
    → HasValidBooks m
    → k ≢ j
    → IsGone m k
    → IsGone (cancel m j c).0 k
cancel_other-IsGone m j k c v n g = elim (cancel_step m j c v) [
  | refused_step _ q ↦ subst (λ x. IsGone x k) (sym q) g
  | accepted_step o b s l _ f q ↦
      subst (λ x. IsGone x k) (sym q) (without-IsGone m j k o b s l n f g)
]

-- Cancels, each of an order identifier and a client identifier.
abbrev pub canceled_all : MatchingEngine → List (String × String) → MatchingEngine
canceled_all = foldl (λ m x. (cancel m x.0 x.1).0)

canceled_all-IsGone :
    (m : MatchingEngine) (k : String) (xs : List (String × String))
    → HasValidBooks m
    → IsGone m k
    → IsGone (canceled_all m xs) k
canceled_all-IsGone m k [] v g = g
canceled_all-IsGone m k (x ∷ xs) v g =
    canceled_all-IsGone (cancel m x.0 x.1).0 k xs (cancel-HasValidBooks m x.0 x.1 v)
      (elim (dec_str k x.0) [
        | yes e ↦ subst (λ j. IsGone (cancel m j x.1).0 k) e (cancel_self-IsGone m k x.1 v)
        | no n ↦ cancel_other-IsGone m x.0 k x.1 v n g
      ])

-- Whether a cancel of an order succeeds or not, one more cancel of it after any cancels, of this and of
-- other orders, is refused with one update, of the status rejected, and changes nothing. The engine's
-- books are to be valid, and no other call may come in between.
pub cancel_again :
    (m : MatchingEngine) (k c c' : String) (xs : List (String × String))
    → HasValidBooks m
    → IsRefused (canceled_all (cancel m k c).0 xs) k c'
cancel_again m k c c' xs v = gone-IsRefused (canceled_all (cancel m k c).0 xs) k c' (
    canceled_all-IsGone (cancel m k c).0 k xs (cancel-HasValidBooks m k c v)
      (cancel_self-IsGone m k c v))
