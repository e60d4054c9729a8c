-- ===== src/Controller/Fifo.antt =====
-- The order of delivery of src/app/engine_controller.cpp.
use mathlib.Core.List.{append-nil}
use wall.Controller.{
  EngineController, Handler, drain, enqueue_due_timers, filled_queue, poll_each, poll_sources_once,
  publish, run_once, scan_timers,
}
use wall.Core.{EngineEvent, Int64}
use wall.Prelude.{List, [], arith, length, suc, zero, ℕ, ◌++◌, ◌<◌, ◌^◌, ◌∷◌, ◌≡◌, ◌≤◌}

module _ {ℓ} {W : Type ℓ} (hs : List (Handler W)) where
  -- The handlers enqueue nothing while they run.
  abbrev pub IsQuiet : Type ℓ
  IsQuiet = (e : EngineEvent) (w : W) → (publish hs e w).1 ≡ []

  abbrev pub publish_all : List EngineEvent → W → W
  publish_all [] w = w
  publish_all (e ∷ es) w = publish_all es (publish hs e w).0

  pub drain-fifo :
      (fuel : ℕ) (es : List EngineEvent) (w : W)
      → IsQuiet
      → length es ≤ fuel
      → length es < 2 ^ 64
      → drain fuel hs es w ≡ (publish_all es w, [], length es)
  unfolding drain
  drain-fifo fuel [] w q l b = ground arith
  drain-fifo zero (e ∷ es) w q l b = absurd (omega (arith, l))
  drain-fifo (suc fuel) (e ∷ es) w q l b = ground (
    arith,
    q e w,
    append-nil es,
    drain-fifo fuel es (publish hs e w).0 q (omega (arith, l)) (omega (arith, b)),
  )

  -- When the handlers enqueue nothing and fewer than 2^64 events are ready, one cycle delivers
  -- the events that were queued, then the timers that are due in the order of their registration,
  -- then the polled events in the order of the sources, each to every handler, leaves the queue
  -- empty, and returns their number; a drain of as many rounds as there are events is enough.
  pub run_once-fifo :
      (c : EngineController) (now_ms : Int64) (w : W)
      → IsQuiet
      → length (filled_queue c now_ms).queue < 2 ^ 64
      → run_once (length (filled_queue c now_ms).queue) hs c now_ms w ≡ (
        record {
          queue = [];
          sources = (poll_each c.sources).0;
          timers = (scan_timers now_ms c.timers).0;
        },
        publish_all (c.queue ++ (scan_timers now_ms c.timers).1 ++ (poll_each c.sources).1) w,
        length (filled_queue c now_ms).queue,
      )
  unfolding run_once enqueue_due_timers poll_sources_once
  run_once-fifo c now_ms w q b = ground (
    arith,
    drain-fifo (length (filled_queue c now_ms).queue) (filled_queue c now_ms).queue w q
        (omega arith) b,
  )
