-- ===== src/Tests/Queues.antt =====
-- The order in which src/execution/order_book.cpp and src/execution/matching_engine.cpp trade.
use wall.Core.{buy, sell}
use wall.MatchingEngine.{MatchingEngine, new_engine, order_id_of}
use wall.MatchingEngine.Books.{HasValidBooks}
use wall.MatchingEngine.Calls.{EngineCall, engine_call, engine_calls-HasValidBooks, submits}
use wall.MatchingEngine.Submit.{submit}
use wall.MatchingEngine.TradeOrder.{TradesInOrder, submit-TradesInOrder}
use wall.OrderBook.{new_book}
use wall.OrderBook.Ladder.{abstract_call, empty_book}
use wall.OrderBook.Ladder.Simulation.{Shows, abstract_answers, answers, calls_refine}
use wall.OrderBook.Safety.{Call, adds, call, cancels, fills}
use wall.Prelude.{List, [], foldl, ◌∷◌, ◌≡◌}
use wall.Prelude.Int.{pos}
use wall.Samples.{btc, order_at, units}

-- Two buyers at 100 and one at 101, the first is half filled, and the second is canceled.
abbrev queued_calls : List Call
queued_calls =
    adds (order_at buy 4 100) "order-1" "client-1" (pos 0)
    ∷ adds (order_at buy 5 100) "order-2" "client-2" (pos 0)
    ∷ adds (order_at buy 6 101) "order-3" "client-3" (pos 0)
    ∷ fills "order-1" (units 2)
    ∷ cancels "order-2"
    ∷ []

calls_refine_example :
    Shows
      (foldl call (new_book btc) queued_calls)
      (foldl (λ a c. (abstract_call a c).0) (empty_book btc) queued_calls)
    × (answers (new_book btc) queued_calls ≡ abstract_answers (empty_book btc) queued_calls)
calls_refine_example = calls_refine btc queued_calls

-- Two buyers at 100 rest, and a seller of 6 at 90 comes.
abbrev rested_calls : List EngineCall
rested_calls = submits (order_at buy 4 100) ∷ submits (order_at buy 5 100) ∷ []

abbrev queued : MatchingEngine
queued = foldl engine_call new_engine rested_calls

queued-valid : HasValidBooks queued
queued-valid = engine_calls-HasValidBooks rested_calls

submit-TradesInOrder_example :
    TradesInOrder
      (order_at sell 6 90)
      (order_id_of queued.next_order_id)
      queued
      (submit queued (order_at sell 6 90)).0
      (submit queued (order_at sell 6 90)).1.fills
submit-TradesInOrder_example = submit-TradesInOrder queued (order_at sell 6 90) queued-valid
