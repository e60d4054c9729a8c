-- ===== src/Backtest/Faithful.antt =====
-- A backtest of src/app/backtest_runner.cpp comes to what the run that wrote its log came to.
use wall.Backtest.{run, summary_of}
use wall.Core.{EngineEvent, Int64}
use wall.Fields.Doubles.{DoubleText, IsNumeric}
use wall.MatchingEngine.Books.{HasValidBooks}
use wall.Prelude.{All, List, [], foldl, length, none, refl, ◌<◌, ◌^◌, ◌∷◌, ◌≡◌}
use wall.Replay.{append_event}
use wall.Replay.Events.{WritableEvent}
use wall.Replay.Log.{replay-append_event}
use wall.Runtime.{RuntimeSettings, RuntimeState, on_event}
use wall.Runtime.Safety.{on_event-HasValidBooks}
use wall.Strategy.{StrategyInterface}

pub on_events-HasValidBooks :
    {S : Type 0} (G : RuntimeSettings) (now_ms : Int64) (I : StrategyInterface S)
    (t : RuntimeState S) (es : List EngineEvent)
    → HasValidBooks t.execution_engine
    → HasValidBooks (foldl (on_event G now_ms I) t es).execution_engine
on_events-HasValidBooks G now_ms I t [] v = v
on_events-HasValidBooks G now_ms I t (e ∷ es) v =
    on_events-HasValidBooks G now_ms I (on_event G now_ms I t e) es
      (on_event-HasValidBooks G now_ms I t e v)

-- A backtest over the log that events were appended to leaves the runtime as handling these events one
-- after the other leaves it, with valid books if they were valid before, and its summary is that of this
-- runtime with each event replayed: if there are fewer than 2^64 events, their texts hold no tab
-- and no line end, their integers fit the types of the code, and their other numbers come back from the
-- digits that are written of them.
pub run-append_event :
    {S : Type 0} (N : DoubleText) (G : RuntimeSettings) (now_ms : Int64) (I : StrategyInterface S)
    (t : RuntimeState S) (es : List EngineEvent)
    → IsNumeric N
    → All (WritableEvent N) es
    → length es < 2 ^ 64
    → HasValidBooks t.execution_engine
    → (run N G now_ms I (foldl (append_event N) none es) t ≡ (
      foldl (on_event G now_ms I) t es,
      summary_of
          (record { total_records = length es; replayed_records = length es; skipped_records = 0 })
          (foldl (on_event G now_ms I) t es),
    ))
      × HasValidBooks (run N G now_ms I (foldl (append_event N) none es) t).0.execution_engine
unfolding run
run-append_event N G now_ms I t es n w h v =
    rw (replay-append_event N es n w h) (refl, on_events-HasValidBooks G now_ms I t es v)
