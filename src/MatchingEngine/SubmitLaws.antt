-- ===== src/MatchingEngine/SubmitLaws.antt =====
-- What `submit` (src/execution/matching_engine.cpp) promises, on every branch.
use wall.Core.{
  Double, ExecutionResult, Instrument, OrderRequest, OrderType, limit, market, quantity_tolerance,
}
use wall.MatchingEngine.{
  MatchingEngine, book_for, client_order_id_of, has_positive_price, order_id_of,
}
use wall.MatchingEngine.Books.{
  HasValidBooks, book_for-IsValid, insert-HasValidBooks, same-HasValidBooks,
}
use wall.MatchingEngine.Outcome.{Ended, match_loop-Ended}
use wall.MatchingEngine.Submit.{
  Matching, is_market, match_fuel, match_loop, matching_start, registered, rested, submit,
  submit_rejected, submit_valid,
}
use wall.OrderBook.{OrderBook, add_order}
use wall.OrderBook.Added.{add_order-instrument}
use wall.OrderBook.Safety.{add_order-IsValid}
use wall.OrderBook.Validity.{IsValid}
use wall.Prelude.{
  Bool, Bool-cases, Option, String, ap, arith, false, inl, inr, none, refl, some, subst, sym, true,
  ◌∙◌, ◌≡◌, ◌⊎◌,
}
use wall.Prelude.Dict.{insert}
use wall.Prelude.Int.{leb_ℤ, ltb_ℤ, max_ℤ, pos, ◌-ℤ◌, ◌<ℤ◌}

-- How a request leaves `submit`: turned away by one of the two tests, or matched.
pub data SubmitCase (m : MatchingEngine) (r : OrderRequest) : Type 0 where
  turned_away :
      (reason : String)
      → ((r.order_type ≡ market)
          ⊎ (has_positive_price r.price ≡ false)
          ⊎ (leb_ℤ r.quantity (pos 0) ≡ true))
      → submit m r
        ≡ submit_rejected
            (registered m r)
            (order_id_of m.next_order_id)
            (client_order_id_of m.next_client_order_id)
            reason
      → SubmitCase m r
  accepted :
      (p : Double)
      → r.order_type ≡ limit
      → r.price ≡ some p
      → pos 0 <ℤ p
      → pos 0 <ℤ r.quantity
      → submit m r
        ≡ submit_valid
            (registered m r)
            r
            (order_id_of m.next_order_id)
            (client_order_id_of m.next_client_order_id)
      → SubmitCase m r

is_market-true : (t : OrderType) → is_market t ≡ true → t ≡ market
is_market-true market h = refl
is_market-true limit h = cc

is_market-false : (t : OrderType) → is_market t ≡ false → t ≡ limit
is_market-false market h = cc
is_market-false limit h = refl

positive_price :
    (o : Option Double) → has_positive_price o ≡ true → (p : Double) × (o ≡ some p) × (pos 0 <ℤ p)
positive_price none h = absurd (cc)
positive_price (some p) h = (p, refl, ground arith)

pub rested-more :
    (r : OrderRequest) (k c : String) (q : Double) (s : Matching)
    → ltb_ℤ quantity_tolerance s.remaining_quantity ≡ true
    → rested r k c q s ≡ add_order s.book r k c q
rested-more r k c q s h = rw h

pub rested-done :
    (r : OrderRequest) (k c : String) (q : Double) (s : Matching)
    → ltb_ℤ quantity_tolerance s.remaining_quantity ≡ false
    → rested r k c q s ≡ (s.book, true)
rested-done r k c q s h = rw h

module _ (m : MatchingEngine) (r : OrderRequest) where
  abbrev pub order_id : String
  order_id = order_id_of m.next_order_id

  abbrev pub client_order_id : String
  client_order_id = client_order_id_of m.next_client_order_id

  pub submit-SubmitCase : SubmitCase m r
  unfolding submit
  submit-SubmitCase = elim (Bool-cases (is_market r.order_type)) [
    | inl is ↦
        turned_away "market orders are not supported by the matching engine"
          (inl (is_market-true r.order_type is)) (rw is)
    | inr limited ↦ elim (Bool-cases (has_positive_price r.price)) [
      | inr bad ↦
          turned_away "invalid matching-engine order request" (inr (inl bad)) (rw (limited, bad))
      | inl good ↦ elim (Bool-cases (leb_ℤ r.quantity (pos 0))) [
        | inl empty ↦
            turned_away "invalid matching-engine order request" (inr (inr empty))
              (rw (limited, good, empty))
        | inr more ↦
            let (p, e, above) = positive_price r.price good in
            accepted p (is_market-false r.order_type limited) e above (ground arith)
              (rw (limited, good, more))
      ]
    ]
  ]

  abbrev pub book : OrderBook
  book = book_for m.books r.instrument

  abbrev pub last : Matching
  last = match_loop (match_fuel r book) r order_id (matching_start (registered m r) r order_id)

  abbrev pub total : Double
  total = max_ℤ (pos 0) (r.quantity -ℤ last.remaining_quantity)

  abbrev pub book_after : OrderBook
  book_after = (rested r order_id client_order_id total last).0

  pub last-Ended : HasValidBooks m → Ended r order_id book last
  last-Ended v = match_loop-Ended (registered m r) r order_id (book_for-IsValid m r.instrument v).0

  pub book_after-IsValid : HasValidBooks m → IsValid book_after
  book_after-IsValid v = elim (Bool-cases (ltb_ℤ quantity_tolerance last.remaining_quantity)) [
    | inl more ↦
        subst (λ x. IsValid x.0) (sym (rested-more r order_id client_order_id total last more))
          (add_order-IsValid last.book r order_id client_order_id total (last-Ended v).valid)
    | inr little ↦
        subst (λ x. IsValid x.0) (sym (rested-done r order_id client_order_id total last little))
          (last-Ended v).valid
  ]

  book_after-instrument : HasValidBooks m → book_after.instrument ≡ book.instrument
  book_after-instrument v = elim (Bool-cases (ltb_ℤ quantity_tolerance last.remaining_quantity)) [
    | inl more ↦
        ap (λ (x : OrderBook × Bool). x.0.instrument)
          (rested-more r order_id client_order_id total last more)
        ∙ add_order-instrument last.book r order_id client_order_id total
        ∙ (last-Ended v).running.instrument_is
    | inr little ↦
        ap (λ (x : OrderBook × Bool). x.0.instrument)
          (rested-done r order_id client_order_id total last little)
        ∙ (last-Ended v).running.instrument_is
  ]

  pub books_after :
      submit m r ≡ submit_valid (registered m r) r order_id client_order_id
      → (submit m r).0.books ≡ insert r.instrument.instrument_id book_after m.books
  unfolding submit_valid
  books_after e = ap (λ (x : MatchingEngine × ExecutionResult). x.0.books) e

-- Whatever the request, `submit` keeps every book valid.
pub submit-HasValidBooks :
    (m : MatchingEngine) (r : OrderRequest) → HasValidBooks m → HasValidBooks (submit m r).0
submit-HasValidBooks m r v = by_case (submit-SubmitCase m r)
  where
    by_case : SubmitCase m r → HasValidBooks (submit m r).0
    by_case (turned_away reason why e) =
        same-HasValidBooks m (submit m r).0 v
          (ap (λ (x : MatchingEngine × ExecutionResult). x.0.books) e)
    by_case (accepted p l e above more s) =
        insert-HasValidBooks m (submit m r).0 r.instrument.instrument_id (book_after m r) v
          (book_after-IsValid m r v)
          (ap (λ (i : Instrument). i.instrument_id) (book_after-instrument m r v)
            ∙ (book_for-IsValid m r.instrument v).1)
          (books_after m r s)
