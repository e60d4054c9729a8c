-- ===== src/Tests/Books.antt =====
-- Orders that rest, match and are canceled in src/execution/order_book.cpp and
-- src/execution/matching_engine.cpp.
use wall.Core.{BookLevel, MarketEvent, OrderRequest, buy, sell}
use wall.MatchingEngine.{MatchingEngine, book_for, new_engine, order_id_of}
use wall.MatchingEngine.Books.{HasValidBooks, book_for-IsValid}
use wall.MatchingEngine.Calls.{EngineCall, engine_call, engine_calls-HasValidBooks, submits}
use wall.MatchingEngine.Cancel.{IsRefused, cancel_again, canceled_all}
use wall.MatchingEngine.Guarantees.{submit-crossings, submit-fills}
use wall.MatchingEngine.Lifecycle.{cancel}
use wall.MatchingEngine.Matches.{match_loop_ends}
use wall.MatchingEngine.Outcome.{FillFits, total_quantity}
use wall.MatchingEngine.Submit.{
  Matching, match_fuel, match_loop, match_step, matching_start, submit,
}
use wall.MatchingEngine.Sweep.{
  Sweep, process_market_event, sweep_fuel, sweep_level, sweep_start, sweep_step,
}
use wall.MatchingEngine.SweepLaws.{offered, process_market_event-fills}
use wall.MatchingEngine.SweepRounds.{sweep_level_ends}
use wall.OrderBook.{OrderBook, new_book}
use wall.OrderBook.Crossings.{crossings}
use wall.OrderBook.Safety.{Call, adds, call, calls-IsValid, fills}
use wall.OrderBook.Validity.{IsValid}
use wall.Prelude.{All, List, [], arith, foldl, none, ◌∷◌, ◌≡◌, ◌≤◌}
use wall.Prelude.Int.{pos, ◌+ℤ◌, ◌≤ℤ◌}
use wall.Samples.{btc, order_at, quote_at, units}

-- A buyer at 100 and a seller at 110 rest.
abbrev pub resting_pair : List EngineCall
resting_pair = submits (order_at buy 5 100) ∷ submits (order_at sell 4 110) ∷ []

abbrev pub two_sided : MatchingEngine
two_sided = foldl engine_call new_engine resting_pair

engine_calls-HasValidBooks_example : HasValidBooks (foldl engine_call new_engine resting_pair)
engine_calls-HasValidBooks_example = engine_calls-HasValidBooks resting_pair

pub two_sided-valid : HasValidBooks two_sided
two_sided-valid = engine_calls-HasValidBooks resting_pair

-- A seller at 90 takes the buyer's 5 and leaves 1.
abbrev taker : OrderRequest
taker = order_at sell 6 90

submit-crossings_example :
    crossings (book_for (submit two_sided taker).0.books taker.instrument)
    ≤ crossings (book_for two_sided.books taker.instrument)
submit-crossings_example = submit-crossings two_sided taker two_sided-valid

submit-fills_example :
    All (FillFits taker (order_id_of two_sided.next_order_id)) (submit two_sided taker).1.fills
    × (total_quantity (submit two_sided taker).1.fills ≤ℤ taker.quantity)
submit-fills_example = submit-fills two_sided taker two_sided-valid (omega arith)

abbrev book_calls : List Call
book_calls =
    adds (order_at buy 5 100) "order-1" "client-1" (pos 0)
    ∷ adds (order_at buy 3 100) "order-2" "client-2" (pos 0)
    ∷ fills "order-1" (units 2)
    ∷ []

abbrev book_of_calls : OrderBook
book_of_calls = foldl call (new_book btc) book_calls

book_of_calls-IsValid : IsValid book_of_calls
book_of_calls-IsValid = calls-IsValid btc book_calls

calls-IsValid_example : IsValid (foldl call (new_book btc) book_calls)
calls-IsValid_example = calls-IsValid btc book_calls

abbrev loop_start : Matching
loop_start = matching_start two_sided taker "order-9"

match_loop_ends_example :
    match_step taker "order-9"
      (match_loop (match_fuel taker loop_start.book) taker "order-9" loop_start)
    ≡ none
match_loop_ends_example =
    match_loop_ends taker "order-9" (match_fuel taker loop_start.book) loop_start
      (book_for-IsValid two_sided btc two_sided-valid).0 (omega arith)

abbrev shown : MarketEvent
shown = quote_at 3 95

process_market_event-fills_example :
    total_quantity (process_market_event two_sided shown).1.fills
    ≤ℤ offered shown.ask_levels +ℤ offered shown.bid_levels
process_market_event-fills_example = process_market_event-fills two_sided shown two_sided-valid

abbrev shown_level : BookLevel
shown_level = record { price = units 95; quantity = units 3 }

abbrev sweep_from : Sweep
sweep_from = sweep_start two_sided (book_for two_sided.books btc)

sweep_level_ends_example :
    sweep_step buy shown shown_level
      (sweep_level (sweep_fuel buy sweep_from) buy shown shown_level (units 3) sweep_from).1
      (sweep_level (sweep_fuel buy sweep_from) buy shown shown_level (units 3) sweep_from).0
    ≡ none
sweep_level_ends_example =
    sweep_level_ends buy shown shown_level (sweep_fuel buy sweep_from) (units 3) sweep_from
      (book_for-IsValid two_sided btc two_sided-valid).0 (omega arith)

-- Another order is canceled in between.
cancel_again_example :
    IsRefused
      (canceled_all
        (cancel two_sided "match-order-1" "client-1").0
        (("match-order-2", "client-2") ∷ []))
      "match-order-1"
      "client-2"
cancel_again_example =
    cancel_again two_sided "match-order-1" "client-1" "client-2"
      (("match-order-2", "client-2") ∷ []) two_sided-valid
