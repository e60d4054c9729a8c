-- ===== src/Controller/Timers.antt =====
-- The timers of src/app/engine_controller.cpp are emitted once.
use mathlib.Core.List.{append-nil}
use wall.Controller.{EngineController, ScheduledTimer, enqueue_due_timers, scan_timers}
use wall.Core.{Int64}
use wall.Prelude.{List, [], arith, if◌then◌else◌, refl, suc, ℕ, ◌++◌, ◌+◌, ◌∷◌, ◌≡◌}
use wall.Prelude.Int.{◌≤ℤ◌}

scan-scan :
    (a b : Int64) (ts : List ScheduledTimer)
    → b ≤ℤ a
    → scan_timers b (scan_timers a ts).0 ≡ ((scan_timers a ts).0, [])
unfolding scan_timers
scan-scan a b [] h = refl
scan-scan a b (t ∷ ts) h = ground (arith, scan-scan a b ts h)

-- After the due timers were enqueued, a second call at the same time or an earlier one enqueues
-- nothing and changes nothing.
pub enqueue_due_timers_again :
    (c : EngineController) (now_ms later_ms : Int64)
    → later_ms ≤ℤ now_ms
    → enqueue_due_timers (enqueue_due_timers c now_ms).0 later_ms
      ≡ ((enqueue_due_timers c now_ms).0, 0)
unfolding enqueue_due_timers
enqueue_due_timers_again c now_ms later_ms h = ground (
  arith,
  scan-scan now_ms later_ms c.timers h,
  append-nil (c.queue ++ (scan_timers now_ms c.timers).1),
)

-- The events that a list of timers may still give.
abbrev pub pending : List ScheduledTimer → ℕ
pending [] = 0
pending (t ∷ ts) = let rest = pending ts in if t.emitted then rest else suc rest

abbrev pub timer_rounds : EngineController → List Int64 → EngineController × ℕ
timer_rounds c [] = (c, 0)
timer_rounds c (now_ms ∷ times) =
    let (c', n) = enqueue_due_timers c now_ms in
    let (c'', more) = timer_rounds c' times in (c'', n + more)
