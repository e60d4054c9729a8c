-- ===== src/Tests/Streams.antt =====
-- Streams of commands and events: src/ingestion, src/app/engine_controller.cpp and src/strategy.
use wall.Controller.{
  EngineController, Handler, enqueue, enqueue_due_timers, filled_queue, new_controller, poll_each,
  poll_sources_once, publish, run_once, scan_timers, schedule_timer,
}
use wall.Controller.Fifo.{IsQuiet, publish_all, run_once-fifo}
use wall.Core.{EngineEvent, buy, market_event, transaction_command}
use wall.Ingestion.{Effect, Observers, handled, is_valid, process_next, save_processed}
use wall.Ingestion.Order.{committed, in_order, phase_after, process_next-in_order, waiting}
use wall.MarketData.{MarketStateStore, apply}
use wall.Prelude.{
  Bool, List, String, [], arith, false, length, none, refl, some, true, ℕ, ◌++◌, ◌+◌, ◌<◌, ◌^◌, ◌∷◌,
  ◌≡◌, ◌≤◌,
}
use wall.Prelude.Int.{pos}
use wall.Samples.{btc, command_of, quote_at, units}
use wall.Strategy.{StrategyInterface, StrategySlot, handle_slot}
use wall.Strategy.Isolation.{handle_slot-failed}
use wall.Strategy.Threshold.{ThresholdConfig, ThresholdStrategy, new_threshold}
use wall.Strategy.Threshold.Signal.{run, run-one_signal}

-- The repository fails when the processed status is saved.
abbrev failing : Effect → Bool
failing (save_processed id st) = true
failing e = false

abbrev observed_all : Observers
observed_all = record { has_metrics = true; has_clock = true }

process_next-in_order_example :
    (in_order (
        phase_after waiting
          (process_next failing observed_all (some (command_of "transaction-1" 5))).0)
      ≡ true)
    × ((process_next failing observed_all (some (command_of "transaction-1" 5))).1 ≡ handled
        → phase_after waiting
            (process_next failing observed_all (some (command_of "transaction-1" 5))).0
          ≡ committed)
process_next-in_order_example =
    process_next-in_order failing observed_all (command_of "transaction-1" 5)

is_refused : is_valid (command_of "transaction-2" 0) ≡ false
unfolding is_valid
is_refused = refl

-- One handler, which counts the events.
abbrev counting : List (Handler ℕ)
counting = (λ e n. (n + 1, [])) ∷ []

counting-IsQuiet : IsQuiet counting
unfolding publish
counting-IsQuiet e w = refl

abbrev timed : EngineController
timed =
    enqueue (schedule_timer new_controller "timer-1" (pos 100))
      (transaction_command (command_of "transaction-1" 5))

two_ready : length (filled_queue timed (pos 150)).queue < 2 ^ 64
unfolding enqueue schedule_timer new_controller enqueue_due_timers poll_sources_once scan_timers
    poll_each
two_ready = omega arith

run_once-fifo_example :
    run_once (length (filled_queue timed (pos 150)).queue) counting timed (pos 150) 0 ≡ (
      record {
        queue = [];
        sources = (poll_each timed.sources).0;
        timers = (scan_timers (pos 150) timed.timers).0;
      },
      publish_all counting
          (timed.queue ++ (scan_timers (pos 150) timed.timers).1 ++ (poll_each timed.sources).1)
          0,
      length (filled_queue timed (pos 150)).queue,
    )
run_once-fifo_example = run_once-fifo counting timed (pos 150) 0 counting-IsQuiet two_ready

abbrev cheap : ThresholdConfig
cheap = record {
  strategy_id = "strategy-1";
  instrument_id = "BTC-USD";
  instrument = btc;
  trigger_price = units 96;
  order_quantity = units 1;
  side = buy;
}

abbrev slot_of : String → StrategySlot ThresholdStrategy
slot_of id = record {
  strategy = new_threshold cheap;
  stats = record {
    strategy_id = id;
    handled_events = 0;
    emitted_requests = 0;
    failures = 0;
    paused = false;
  };
}

abbrev quoted : EngineEvent
quoted = market_event (quote_at 3 95)

-- A strategy that always throws.
abbrev throwing : StrategyInterface ThresholdStrategy
throwing = record { id_of = λ s. s.config.strategy_id; on_event = λ s e d. (s, none) }

handle_slot-failed_example :
    ((handle_slot throwing quoted [] (slot_of "a")).1 ≡ [])
    × ((e' : EngineEvent) (d' : MarketStateStore)
        → handle_slot throwing e' d' (handle_slot throwing quoted [] (slot_of "a")).0
          ≡ ((handle_slot throwing quoted [] (slot_of "a")).0, []))
handle_slot-failed_example = handle_slot-failed throwing (slot_of "a") quoted [] refl refl

abbrev seen : MarketStateStore
seen = apply [] (quote_at 3 95)

run-one_signal_example :
    length (run (new_threshold cheap) ((quoted, seen) ∷ (quoted, seen) ∷ [])).1 ≤ 1
run-one_signal_example =
    run-one_signal (new_threshold cheap) ((quoted, seen) ∷ (quoted, seen) ∷ []) refl
