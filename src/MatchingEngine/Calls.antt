-- ===== src/MatchingEngine/Calls.antt =====
-- Every call of src/execution/matching_engine.cpp keeps the engine's books valid.
use wall.Core.{
  Double, Instrument, MarketEvent, OrderRecord, OrderRequest, OrderSide, buy, is_terminal,
  quantity_tolerance, sell,
}
use wall.MatchingEngine.{MatchingEngine, book_for, has_positive_price, new_engine, new_record}
use wall.MatchingEngine.Books.{
  BookAt, HasValidBooks, book_for-IsValid, insert-HasValidBooks, new_engine-HasValidBooks,
  same-HasValidBooks,
}
use wall.MatchingEngine.Lifecycle.{
  cancel, cancel_in_book, cancel_record, canceled_in, restore_open_order, restored_in,
  restored_status,
}
use wall.MatchingEngine.Submit.{submit}
use wall.MatchingEngine.SubmitLaws.{submit-HasValidBooks}
use wall.MatchingEngine.Sweep.{process_market_event}
use wall.MatchingEngine.SweepLaws.{process_market_event-HasValidBooks}
use wall.OrderBook.{OrderBook, add_order, cancel_order}
use wall.OrderBook.Added.{add_order-instrument}
use wall.OrderBook.Operations.{without}
use wall.OrderBook.PriceLevels.{Levels}
use wall.OrderBook.Safety.{add_order-IsValid, cancel_order-IsValid, cancel_order_cases}
use wall.OrderBook.Validity.{IsValid}
use wall.Prelude.{
  Bool, Bool-cases, List, Option, String, [], ap, false, foldl, inl, inr, none, not, refl, some,
  true, ◌||◌, ◌∙◌, ◌∷◌, ◌≡◌,
}
use wall.Prelude.Dict.{insert, lookup}
use wall.Prelude.Int.{leb_ℤ, ltb_ℤ, pos, ◌-ℤ◌}

without-instrument :
    (b : OrderBook) (k : String) (s : OrderSide) (l : Levels)
    → (without b k s l).instrument ≡ b.instrument
without-instrument b k buy l = refl
without-instrument b k sell l = refl

cancel_order-instrument :
    (b : OrderBook) (k : String) → IsValid b → (cancel_order b k).0.instrument ≡ b.instrument
cancel_order-instrument b k v = elim (cancel_order_cases b k v) [
  | inl (e, c) ↦ ap (λ (x : OrderBook × Bool). x.0.instrument) c
  | inr (at, o, l, e, f, c, rm) ↦
      ap (λ (x : OrderBook × Bool). x.0.instrument) c ∙ without-instrument b k at.side l
]

canceled_in-HasValidBooks :
    (m : MatchingEngine) (o : OrderRecord) (k : String) (out : OrderBook × Bool)
    → HasValidBooks m
    → IsValid out.0
    → out.0.instrument.instrument_id ≡ o.instrument_id
    → HasValidBooks (canceled_in m o k out).0
canceled_in-HasValidBooks m o k (b, false) v valid named = v
canceled_in-HasValidBooks m o k (b, true) v valid named =
    insert-HasValidBooks m (canceled_in m o k (b, true)).0 o.instrument_id b v valid named refl

cancel_in_book-HasValidBooks :
    (m : MatchingEngine) (o : OrderRecord) (k : String) (found : Option OrderBook)
    → BookAt o.instrument_id found
    → HasValidBooks m
    → HasValidBooks (cancel_in_book m o k found).0
cancel_in_book-HasValidBooks m o k none h v = v
cancel_in_book-HasValidBooks m o k (some b) h v =
    canceled_in-HasValidBooks m o k (cancel_order b k) v (cancel_order-IsValid b k h.0)
      (ap (λ (i : Instrument). i.instrument_id) (cancel_order-instrument b k h.0) ∙ h.1)

cancel_record-HasValidBooks :
    (m : MatchingEngine) (k c : String) (found : Option OrderRecord)
    → HasValidBooks m
    → HasValidBooks (cancel_record m k c found).0
cancel_record-HasValidBooks m k c none v = v
cancel_record-HasValidBooks m k c (some o) v = elim (Bool-cases (is_terminal o.status)) [
  | inl t ↦ rw t v
  | inr t ↦ rw t (
      cancel_in_book-HasValidBooks m o k (lookup o.instrument_id m.books)
        (v.book_at o.instrument_id) v)
]

restored_in-HasValidBooks :
    (m : MatchingEngine) (r : OrderRequest) (k : String) (out : OrderBook × Bool)
    → HasValidBooks m
    → IsValid out.0
    → out.0.instrument.instrument_id ≡ r.instrument.instrument_id
    → HasValidBooks (restored_in m r k out)
restored_in-HasValidBooks m r k (b, true) v valid named =
    insert-HasValidBooks m (restored_in m r k (b, true)) r.instrument.instrument_id b v valid named
      refl
restored_in-HasValidBooks m r k (b, false) v valid named =
    insert-HasValidBooks m (restored_in m r k (b, false)) r.instrument.instrument_id b v valid named
      refl

pub cancel-HasValidBooks :
    (m : MatchingEngine) (k c : String) → HasValidBooks m → HasValidBooks (cancel m k c).0
unfolding cancel
cancel-HasValidBooks m k c v = cancel_record-HasValidBooks m k c (lookup k m.orders) v

-- The state in which `restore_open_order` adds the order to its book.
abbrev recorded : MatchingEngine → String → String → OrderRequest → Double → MatchingEngine
recorded m k c r q = record m {
  orders = insert k (new_record r k c (restored_status q) q) m.orders;
}

pub restore_open_order-HasValidBooks :
    (m : MatchingEngine) (k c : String) (r : OrderRequest) (q : Double)
    → HasValidBooks m
    → HasValidBooks (restore_open_order m k c r q)
unfolding restore_open_order
restore_open_order-HasValidBooks m k c r q v =
    let b = book_for-IsValid m r.instrument v in
    let added =
      restored_in-HasValidBooks (recorded m k c r q) r k
        (add_order (book_for m.books r.instrument) r k c q)
        (same-HasValidBooks m (recorded m k c r q) v refl)
        (add_order-IsValid (book_for m.books r.instrument) r k c q b.0)
        (ap (λ (i : Instrument). i.instrument_id)
            (add_order-instrument (book_for m.books r.instrument) r k c q)
          ∙ b.1) in
    elim (Bool-cases (not (has_positive_price r.price) || leb_ℤ r.quantity (pos 0))) [
      | inl bad ↦ rw bad v
      | inr good ↦
          elim (Bool-cases (ltb_ℤ q (pos 0) || leb_ℤ (r.quantity -ℤ quantity_tolerance) q)) [
            | inl bad ↦ rw (good, bad) v
            | inr more ↦ rw (good, more) added
          ]
    ]

-- The calls that change an engine.
pub data EngineCall : Type 0 where
  submits : OrderRequest → EngineCall
  sweeps : MarketEvent → EngineCall
  cancels : String → String → EngineCall
  restores : String → String → OrderRequest → Double → EngineCall

unfoldable pub engine_call : MatchingEngine → EngineCall → MatchingEngine
engine_call m (submits r) = (submit m r).0
engine_call m (sweeps event) = (process_market_event m event).0
engine_call m (cancels k c) = (cancel m k c).0
engine_call m (restores k c r q) = restore_open_order m k c r q

-- After any sequence of submissions, market events, cancels and restored orders on a new engine, every
-- book is valid and belongs to the instrument that it is filed under.
pub engine_calls-HasValidBooks :
    (cs : List EngineCall) → HasValidBooks (foldl engine_call new_engine cs)
unfolding engine_call
engine_calls-HasValidBooks cs = from new_engine cs new_engine-HasValidBooks
  where
    step : (m : MatchingEngine) (c : EngineCall) → HasValidBooks m → HasValidBooks (engine_call m c)
    step m (submits r) v = submit-HasValidBooks m r v
    step m (sweeps event) v = process_market_event-HasValidBooks m event v
    step m (cancels k c) v = cancel-HasValidBooks m k c v
    step m (restores k c r q) v = restore_open_order-HasValidBooks m k c r q v

    from :
        (m : MatchingEngine) (cs : List EngineCall)
        → HasValidBooks m
        → HasValidBooks (foldl engine_call m cs)
    from m [] v = v
    from m (c ∷ cs) v = from (engine_call m c) cs (step m c v)
