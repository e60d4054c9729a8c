-- ===== src/Tests/Backtests.antt =====
-- A cycle of src/app/application.cpp and the backtest over its log, of src/app/backtest_runner.cpp.
use wall.Application.{ApplicationState}
use wall.Application.Journal.{cycle_end, run-cycle_end}
use wall.Backtest.{run, summary_of}
use wall.Controller.{
  EngineController, enqueue_due_timers, filled_queue, poll_each, poll_sources_once, scan_timers,
}
use wall.Core.{market_event, transaction_command}
use wall.MatchingEngine.Books.{HasValidBooks, new_engine-HasValidBooks}
use wall.Monitoring.{new_health}
use wall.Prelude.{All, [], arith, false, length, none, refl, ◌<◌, ◌^◌, ◌∷◌, ◌≡◌}
use wall.Prelude.Int.{pos}
use wall.Replay.Events.{WritableEvent}
use wall.Samples.{quote_at}
use wall.Strategy.Threshold.{ThresholdStrategy, threshold_interface}
use wall.Tests.Engine.{idle_runtime, settings}
use wall.Tests.Messages.{logged-Writable, transaction}
use wall.Tests.Numbers.{scientific-IsNumeric, scientific_text}

-- A source of a quote, a source of a transaction, and a timer that is due.
abbrev sourced : EngineController
sourced = record {
  queue = [];
  sources =
      record { events = market_event (quote_at 5 100) ∷ []; next_index = 0 }
      ∷ record { events = transaction_command transaction ∷ []; next_index = 0 }
      ∷ [];
  timers = record { timer_id = "timer-1"; due_timestamp_ms = pos 1500; emitted = false } ∷ [];
}

abbrev started : ApplicationState ThresholdStrategy
started = record {
  runtime = idle_runtime;
  health_status = new_health;
  event_log = none;
  output = "";
}

sourced-Writable : All (WritableEvent scientific_text) (filled_queue sourced (pos 1600)).queue
unfolding enqueue_due_timers poll_sources_once scan_timers poll_each
sourced-Writable = logged-Writable

three_ready : length (filled_queue sourced (pos 1600)).queue < 2 ^ 64
unfolding enqueue_due_timers poll_sources_once scan_timers poll_each
three_ready = omega arith

run-cycle_end_example :
    (run scientific_text
        (settings false)
        (pos 1600)
        threshold_interface
        (cycle_end scientific_text
          (settings false)
          (pos 1600)
          threshold_interface
          sourced
          started).event_log
        idle_runtime
      ≡ (
        (cycle_end scientific_text
            (settings false)
            (pos 1600)
            threshold_interface
            sourced
            started).runtime,
        summary_of
            (record {
              total_records = length (filled_queue sourced (pos 1600)).queue;
              replayed_records = length (filled_queue sourced (pos 1600)).queue;
              skipped_records = 0;
            })
            (cycle_end scientific_text
              (settings false)
              (pos 1600)
              threshold_interface
              sourced
              started).runtime,
      ))
    × HasValidBooks
        (cycle_end scientific_text
          (settings false)
          (pos 1600)
          threshold_interface
          sourced
          started).runtime.execution_engine
run-cycle_end_example =
    run-cycle_end scientific_text (settings false) (pos 1600) threshold_interface sourced started
      scientific-IsNumeric refl sourced-Writable three_ready new_engine-HasValidBooks
