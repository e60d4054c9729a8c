-- ===== src/Controller.antt =====
-- src/app/engine_controller.cpp, include/core/event_dispatcher.hpp and src/app/mock_event_sources.cpp: the
-- queue of the runtime, fed by timers and sources and drained to the handlers in order.
-- A handler works on a state `W` and returns the events that it enqueues on the controller meanwhile.
pub mod Timers
pub mod Fifo
use wall.Core.{EngineEvent, Int64, timer_event}
use wall.Prelude.{
  Bool, List, Option, String, [], false, get_elem?, if◌then◌else◌, inc_u64, leb, length, none, not,
  some, suc, true, zero, ℕ, ◌&&◌, ◌++◌, ◌∷◌,
}
use wall.Prelude.Int.{leb_ℤ}

pub record ScheduledTimer : Type 0 where
  pub timer_id : String
  pub due_timestamp_ms : Int64
  pub emitted : Bool

-- `MockMarketDataSource` and `MockTransactionEventSource`
pub record EventSource : Type 0 where
  pub events : List EngineEvent
  pub next_index : ℕ

unfoldable pub poll_source : EventSource → EventSource × Option EngineEvent
poll_source s =
    if leb (length s.events) s.next_index
    then (s, none)
    else (record s { next_index = inc_u64 s.next_index }, get_elem? s.next_index s.events)

pub record EngineController : Type 0 where
  pub queue : List EngineEvent
  pub sources : List EventSource
  pub timers : List ScheduledTimer

unfoldable pub new_controller : EngineController
new_controller = record { queue = []; sources = []; timers = [] }

unfoldable pub add_source : EngineController → EventSource → EngineController
add_source c s = record c { sources = c.sources ++ (s ∷ []) }

unfoldable pub enqueue : EngineController → EngineEvent → EngineController
enqueue c e = record c { queue = c.queue ++ (e ∷ []) }

unfoldable pub schedule_timer : EngineController → String → Int64 → EngineController
schedule_timer c timer_id due_timestamp_ms = record c {
  timers =
      c.timers
      ++ ((record { timer_id = timer_id; due_timestamp_ms = due_timestamp_ms; emitted = false })
          ∷ []);
}

abbrev pub with_event : Option EngineEvent → List EngineEvent → List EngineEvent
with_event none es = es
with_event (some e) es = e ∷ es

-- The sources after one poll of each, and the events that came.
unfoldable pub poll_each : List EventSource → List EventSource × List EngineEvent
unfolding poll_source
poll_each [] = ([], [])
poll_each (s ∷ ss) =
    let (ss', more) = poll_each ss in
    let (s', polled) = poll_source s in (s' ∷ ss', with_event polled more)

unfoldable pub poll_sources_once : EngineController → EngineController × ℕ
unfolding poll_each
poll_sources_once c =
    let (ss, events) = poll_each c.sources in
    (record c { sources = ss; queue = c.queue ++ events }, length events)

abbrev pub is_due : Int64 → ScheduledTimer → Bool
is_due now_ms t = not t.emitted && leb_ℤ t.due_timestamp_ms now_ms

abbrev pub timer_of : ScheduledTimer → EngineEvent
timer_of t = timer_event (record { timer_id = t.timer_id; timestamp = t.due_timestamp_ms })

-- The timers after the scan, and the events of the due ones.
unfoldable pub scan_timers : Int64 → List ScheduledTimer → List ScheduledTimer × List EngineEvent
scan_timers now_ms [] = ([], [])
scan_timers now_ms (t ∷ ts) =
    let (ts', more) = scan_timers now_ms ts in
    if is_due now_ms t
    then (record t { emitted = true } ∷ ts', timer_of t ∷ more)
    else (t ∷ ts', more)

unfoldable pub enqueue_due_timers : EngineController → Int64 → EngineController × ℕ
unfolding scan_timers
enqueue_due_timers c now_ms =
    let (ts, events) = scan_timers now_ms c.timers in
    (record c { timers = ts; queue = c.queue ++ events }, length events)

abbrev pub filled_queue : EngineController → Int64 → EngineController
filled_queue c now_ms = (poll_sources_once (enqueue_due_timers c now_ms).0).0

abbrev pub Handler {ℓ} : Type ℓ → Type ℓ
Handler W = EngineEvent → W → W × List EngineEvent

module _ {ℓ} {W : Type ℓ} where
  -- `EventDispatcher.publish`: every handler in the order of subscription.
  unfoldable pub publish : List (Handler W) → EngineEvent → W → W × List EngineEvent
  publish [] e w = (w, [])
  publish (h ∷ hs) e w =
      let (w', new) = h e w in let (w'', more) = publish hs e w' in (w'', new ++ more)

  -- `drain` within a number of rounds: the state, the events that are left, and the processed count.
  unfoldable pub drain : ℕ → List (Handler W) → List EngineEvent → W → W × List EngineEvent × ℕ
  unfolding publish
  drain fuel hs [] w = (w, [], 0)
  drain zero hs (e ∷ es) w = (w, e ∷ es, 0)
  drain (suc fuel) hs (e ∷ es) w =
      let (w', new) = publish hs e w in
      let (w'', left, count) = drain fuel hs (es ++ new) w' in (w'', left, inc_u64 count)

  unfoldable pub run_once :
      ℕ → List (Handler W) → EngineController → Int64 → W → EngineController × W × ℕ
  unfolding drain
  run_once fuel hs c now_ms w =
      let ready = filled_queue c now_ms in
      let (w', left, count) = drain fuel hs ready.queue w in
      (record ready { queue = left }, w', count)
