-- ===== src/Replay/Log.antt =====
-- The log of src/storage/replay_service.cpp as a whole: what was appended is replayed, and every line
-- is counted.
use Prim.Native.String.{◌++◌ as ◌<>◌}
use text.Mathlib.TextLemmas.{append-nil as text_append_nil, append_assoc as text_append_assoc}
use mathlib.Core.List.{append-nil, append_assoc}
use text.Mathlib.TextLemmas.{nil-append}
use wall.Core.{EngineEvent}
use wall.Fields.{file_of, lines_of}
use wall.Fields.Doubles.{DoubleText, IsNumeric}
use wall.Fields.Laws.{Lacks, lines_of-file_of}
use wall.Prelude.{
  All, List, Option-cases, String, [], ap, arith, foldl, inc_u64, inl, inr, length, map, none, refl,
  some, sym, ℕ, ◌++◌, ◌+◌, ◌<◌, ◌^◌, ◌∙◌, ◌∷◌, ◌≡◌,
}
use wall.Replay.{
  ReplayStats, append_event, counted, deserialize_event, no_stats, replay, replay_lines,
  serialize_event,
}
use wall.Replay.Events.{WritableEvent, deserialize-serialize_event, serialize_event-Lacks}

file_of-push_back :
    (ls : List String) (l : String) → file_of ls <> (l <> "\n") ≡ file_of (ls ++ (l ∷ []))
unfolding file_of
file_of-push_back [] l = nil-append _
file_of-push_back (x ∷ ls) l =
    text_append_assoc x _ _
    ∙ ap (λ t. x <> t)
        (text_append_assoc "\n" (file_of ls) _ ∙ ap (λ t. "\n" <> t) (file_of-push_back ls l))

-- The lines of the log after appending events to one that holds lines.
append_event-lines :
    (N : DoubleText) (ls : List String) (es : List EngineEvent)
    → foldl (append_event N) (some (file_of ls)) es
      ≡ some (file_of (ls ++ map (serialize_event N) es))
unfolding append_event
append_event-lines N ls [] = ap (λ x. some (file_of x)) (sym (append-nil ls))
append_event-lines N ls (e ∷ es) =
    ap (λ x. foldl (append_event N) (some x) es) (file_of-push_back ls (serialize_event N e))
    ∙ append_event-lines N (ls ++ (serialize_event N e ∷ [])) es
    ∙ ap (λ x. some (file_of x))
        (append_assoc ls (serialize_event N e ∷ []) (map (serialize_event N) es))

zero-add : (n : ℕ) → 0 + n ≡ n
zero-add n = omega arith

append_event-first :
    (N : DoubleText) (e : EngineEvent)
    → append_event N none e ≡ some (file_of (serialize_event N e ∷ []))
unfolding append_event file_of
append_event-first N e = ap (λ x. some (serialize_event N e <> x)) (sym (text_append_nil "\n"))

serialized-Lacks :
    (N : DoubleText) (es : List EngineEvent)
    → IsNumeric N
    → All (WritableEvent N) es
    → All (Lacks b'\n') (map (serialize_event N) es)
serialized-Lacks N [] n w = tt
serialized-Lacks N (e ∷ es) n w = (serialize_event-Lacks N e n w.0, serialized-Lacks N es n w.1)

abbrev replayed_stats : ℕ → ReplayStats
replayed_stats k = record { total_records = k; replayed_records = k; skipped_records = 0 }

-- A line that was read in front of what the lines behind it give.
abbrev pushed : EngineEvent → ReplayStats × List EngineEvent → ReplayStats × List EngineEvent
pushed e (s, es) = (s, e ∷ es)

replay_lines-read :
    (N : DoubleText) (k : ℕ) (l : String) (ls : List String) (e : EngineEvent)
    → k + 1 < 2 ^ 64
    → deserialize_event N l ≡ some e
    → replay_lines N (replayed_stats k) (l ∷ ls)
      ≡ pushed e (replay_lines N (replayed_stats (k + 1)) ls)
unfolding replay_lines
replay_lines-read N k l ls e h read =
    let next : inc_u64 k ≡ k + 1 = omega arith in rw (read, next) refl

replay_lines-serialized :
    (N : DoubleText) (k : ℕ) (es : List EngineEvent)
    → IsNumeric N
    → All (WritableEvent N) es
    → k + length es < 2 ^ 64
    → replay_lines N (replayed_stats k) (map (serialize_event N) es)
      ≡ (replayed_stats (k + length es), es)
unfolding replay_lines
replay_lines-serialized N k [] n w h = ap (λ x. (replayed_stats x, [])) (omega arith)
replay_lines-serialized N k (e ∷ es) n w h =
    replay_lines-read N k (serialize_event N e) (map (serialize_event N) es) e (omega arith)
      (deserialize-serialize_event N e n w.0)
    ∙ ap (pushed e) (replay_lines-serialized N (k + 1) es n w.1 (omega arith))
    ∙ ap (λ x. (replayed_stats x, e ∷ es)) (omega arith)

-- Events that are appended to a log that is not there are replayed in the order of their appending,
-- each of them, and counted, none of them skipped: if there are fewer than 2^64, their texts hold no
-- tab and no line end, their integers fit the types of the code, and their other numbers come back
-- from the digits that are written of them.
pub replay-append_event :
    (N : DoubleText) (es : List EngineEvent)
    → IsNumeric N
    → All (WritableEvent N) es
    → length es < 2 ^ 64
    → replay N (foldl (append_event N) none es) ≡ (
      record { total_records = length es; replayed_records = length es; skipped_records = 0 },
      es,
    )
unfolding replay append_event
replay-append_event N [] n w h = refl
replay-append_event N (e ∷ es) n w h =
    ap (λ log. replay N (foldl (append_event N) log es)) (append_event-first N e)
    ∙ ap (replay N) (append_event-lines N (serialize_event N e ∷ []) es)
    ∙ ap (replay_lines N no_stats)
        (lines_of-file_of (map (serialize_event N) (e ∷ es)) (serialized-Lacks N (e ∷ es) n w))
    ∙ replay_lines-serialized N 0 (e ∷ es) n w (omega arith)
    ∙ ap (λ x. (replayed_stats x, e ∷ es)) (zero-add _)

-- The counters after the lines of a log.
record Counted (s s' : ReplayStats) (lines events : ℕ) : Type 0 where
  total : s'.total_records ≡ s.total_records + lines
  replayed : s'.replayed_records ≡ s.replayed_records + events
  skipped : s'.replayed_records + s'.skipped_records ≡ s'.total_records

replay_lines-Counted :
    (N : DoubleText) (s : ReplayStats) (ls : List String)
    → s.total_records + length ls < 2 ^ 64
    → s.replayed_records + s.skipped_records ≡ s.total_records
    → Counted s (replay_lines N s ls).0 (length ls) (length (replay_lines N s ls).1)
unfolding replay_lines
replay_lines-Counted N s [] h e = record {
  total = omega arith;
  replayed = omega arith;
  skipped = e;
}
replay_lines-Counted N s (l ∷ ls) h e = elim (Option-cases (deserialize_event N l)) [
  | inl skip ↦
      let c = replay_lines-Counted N (counted s none) ls (omega arith) (omega arith) in
      rw skip (record {
        total = ground (arith, c.total);
        replayed = ground (arith, c.replayed);
        skipped = c.skipped;
      })
  | inr (x, read) ↦
      let c = replay_lines-Counted N (counted s (some x)) ls (omega arith) (omega arith) in
      rw read (record {
        total = ground (arith, c.total);
        replayed = ground (arith, c.replayed);
        skipped = c.skipped;
      })
]

-- The replay of any log counts its lines, those that were passed on and those that were skipped, which
-- are the others: if it has fewer than 2^64 lines.
pub replay-counts :
    (N : DoubleText) (text : String)
    → length (lines_of text) < 2 ^ 64
    → ((replay N (some text)).0.total_records ≡ length (lines_of text))
      × ((replay N (some text)).0.replayed_records ≡ length (replay N (some text)).1)
      × ((replay N (some text)).0.replayed_records + (replay N (some text)).0.skipped_records
          ≡ (replay N (some text)).0.total_records)
unfolding replay
replay-counts N text h =
    let c = replay_lines-Counted N no_stats (lines_of text) (omega arith) refl in
    (c.total ∙ zero-add _, c.replayed ∙ zero-add _, c.skipped)
