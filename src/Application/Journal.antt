-- ===== src/Application/Journal.antt =====
-- The log that a cycle of src/app/application.cpp writes, in a backtest of src/app/backtest_runner.cpp.
use mathlib.Core.Path.{ap, ◌∙◌}
use wall.Application.{
  ApplicationState, handlers, log_handler, logger_handler, run_cycle, runtime_handler,
}
use wall.Backtest.{run, summary_of}
use wall.Backtest.Faithful.{on_events-HasValidBooks, run-append_event}
use wall.Controller.{EngineController, filled_queue, publish, run_once}
use wall.Controller.Fifo.{IsQuiet, drain-fifo, publish_all}
use wall.Core.{EngineEvent, Int64}
use wall.Fields.Doubles.{DoubleText, IsNumeric}
use wall.MatchingEngine.Books.{HasValidBooks}
use wall.Prelude.{All, List, [], arith, foldl, length, none, refl, ◌<◌, ◌^◌, ◌∷◌, ◌≡◌}
use wall.Replay.{append_event}
use wall.Replay.Events.{WritableEvent}
use wall.Runtime.{RuntimeSettings, on_event}
use wall.Strategy.{StrategyInterface}

module _ {S : Type 0} (N : DoubleText) (G : RuntimeSettings) (now_ms : Int64)
    (I : StrategyInterface S) where
  handlers-IsQuiet : IsQuiet (handlers N G now_ms I)
  unfolding publish runtime_handler log_handler logger_handler
  handlers-IsQuiet e a = refl

  publish_all-runtime :
      (es : List EngineEvent) (a : ApplicationState S)
      → (publish_all (handlers N G now_ms I) es a).runtime
        ≡ foldl (on_event G now_ms I) a.runtime es
  unfolding publish runtime_handler log_handler logger_handler
  publish_all-runtime [] a = refl
  publish_all-runtime (e ∷ es) a = publish_all-runtime es (publish (handlers N G now_ms I) e a).0

  publish_all-event_log :
      (es : List EngineEvent) (a : ApplicationState S)
      → (publish_all (handlers N G now_ms I) es a).event_log ≡ foldl (append_event N) a.event_log es
  unfolding publish runtime_handler log_handler logger_handler
  publish_all-event_log [] a = refl
  publish_all-event_log (e ∷ es) a =
      publish_all-event_log es (publish (handlers N G now_ms I) e a).0

  -- The state after a cycle that drains the queue.
  abbrev pub cycle_end : EngineController → ApplicationState S → ApplicationState S
  cycle_end c a = (run_cycle N G now_ms I (length (filled_queue c now_ms).queue) c a).1

  cycle_end-handlers :
      (c : EngineController) (a : ApplicationState S)
      → length (filled_queue c now_ms).queue < 2 ^ 64
      → cycle_end c a ≡ publish_all (handlers N G now_ms I) (filled_queue c now_ms).queue a
  unfolding run_cycle run_once
  cycle_end-handlers c a b =
      ap (λ r. r.0)
        (drain-fifo (handlers N G now_ms I) (length (filled_queue c now_ms).queue)
          (filled_queue c now_ms).queue a handlers-IsQuiet (omega arith) b)

  -- A cycle of the application that starts without a log writes one over which a backtest, begun in the
  -- state in which the runtime was at the start and at the same time of the clock, leads it to the
  -- state in which the cycle left it, with valid books if they were valid before, and to the summary
  -- of this state with every event replayed: if fewer than 2^64 events are ready, their texts hold
  -- no tab and no line end, their integers fit the types of the code, and their other numbers come back
  -- from the digits that are written of them.
  pub run-cycle_end :
      (c : EngineController) (a : ApplicationState S)
      → IsNumeric N
      → a.event_log ≡ none
      → All (WritableEvent N) (filled_queue c now_ms).queue
      → length (filled_queue c now_ms).queue < 2 ^ 64
      → HasValidBooks a.runtime.execution_engine
      → (run N G now_ms I (cycle_end c a).event_log a.runtime ≡ (
        (cycle_end c a).runtime,
        summary_of
            (record {
              total_records = length (filled_queue c now_ms).queue;
              replayed_records = length (filled_queue c now_ms).queue;
              skipped_records = 0;
            })
            (cycle_end c a).runtime,
      ))
        × HasValidBooks (cycle_end c a).runtime.execution_engine
  run-cycle_end c a n l w h v =
      rw (ends_runtime, ends_log)
        (
          (run-append_event N G now_ms I a.runtime (filled_queue c now_ms).queue n w h v).0,
          on_events-HasValidBooks G now_ms I a.runtime (filled_queue c now_ms).queue v,
        )
    where
      ends_runtime :
          (cycle_end c a).runtime
          ≡ foldl (on_event G now_ms I) a.runtime (filled_queue c now_ms).queue
      ends_runtime =
          ap (λ b. b.runtime) (cycle_end-handlers c a h)
          ∙ publish_all-runtime (filled_queue c now_ms).queue a

      ends_log :
          (cycle_end c a).event_log ≡ foldl (append_event N) none (filled_queue c now_ms).queue
      ends_log =
          ap (λ b. b.event_log) (cycle_end-handlers c a h)
          ∙ publish_all-event_log (filled_queue c now_ms).queue a
          ∙ ap (λ log. foldl (append_event N) log (filled_queue c now_ms).queue) l
