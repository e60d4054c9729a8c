-- ===== src/Replay/Levels.antt =====
-- The two sides of a book in the event log of src/storage/replay_service.cpp come back.
use wall.Core.{BookLevel, Double}
use wall.Fields.{joined}
use wall.Fields.Doubles.{
  AllNumeral-Lacks, DoubleText, IsNumeric, Survives, Survives-ne_nil, is_empty-false, is_numeral,
  stod-Survives,
}
use wall.Fields.Laws.{
  HasLast, IsField, Lacks, Lacks-append, append-ne_nil, cut_at-append, joined-Lacks, one_char,
  split_on-joined,
}
use wall.Prelude.{All, List, [], false, map, refl, some, ℕ, ◌==◌, ◌∷◌, ◌≡◌, ◌≢◌}
use wall.Replay.{decode_book_levels, decode_level, decode_levels, encode_book_levels, encode_level}

pub record WritableLevel (N : DoubleText) (l : BookLevel) : Type 0 where
  pub price_survives : Survives N N.shown l.price
  pub quantity_survives : Survives N N.shown l.quantity

shown-Lacks :
    (N : DoubleText) (sep : ℕ) (d : Double)
    → IsNumeric N
    → is_numeral sep ≡ false
    → Lacks sep (N.shown d)
shown-Lacks N sep d n h = AllNumeral-Lacks sep (N.shown d) h (n.shown_numeral d)

decode-encode_level :
    (N : DoubleText) (l : BookLevel)
    → IsNumeric N
    → WritableLevel N l
    → decode_level N (encode_level N l) ≡ some l
unfolding decode_level encode_level
decode-encode_level N l n w =
    rw
      (
        one_char ":" (N.shown l.quantity),
        cut_at-append b':' (N.shown l.price) ":" (N.shown l.quantity) refl
            (shown-Lacks N b':' l.price n refl),
        stod-Survives N N.shown l.price w.price_survives,
        stod-Survives N N.shown l.quantity w.quantity_survives,
      )
      refl

decode-map-encode_level :
    (N : DoubleText) (ls : List BookLevel)
    → IsNumeric N
    → All (WritableLevel N) ls
    → decode_levels N (map (encode_level N) ls) ≡ some ls
unfolding decode_levels
decode-map-encode_level N [] n w = refl
decode-map-encode_level N (l ∷ ls) n w =
    rw (decode-encode_level N l n w.0, decode-map-encode_level N ls n w.1) refl

encode_level-Lacks :
    (N : DoubleText) (sep : ℕ) (l : BookLevel)
    → IsNumeric N
    → is_numeral sep ≡ false
    → (b':' == sep) ≡ false
    → Lacks sep (encode_level N l)
unfolding encode_level
encode_level-Lacks N sep l n h g =
    Lacks-append sep (N.shown l.price) _ (shown-Lacks N sep l.price n h)
      (Lacks-append sep ":" _ (g, tt) (shown-Lacks N sep l.quantity n h))

encode_levels-Lacks :
    (N : DoubleText) (sep : ℕ) (ls : List BookLevel)
    → IsNumeric N
    → is_numeral sep ≡ false
    → (b':' == sep) ≡ false
    → All (Lacks sep) (map (encode_level N) ls)
encode_levels-Lacks N sep [] n h g = tt
encode_levels-Lacks N sep (l ∷ ls) n h g =
    (encode_level-Lacks N sep l n h g, encode_levels-Lacks N sep ls n h g)

encode_level-ne_nil :
    (N : DoubleText) (l : BookLevel) → IsNumeric N → WritableLevel N l → encode_level N l ≢ ""
unfolding encode_level
encode_level-ne_nil N l n w =
    append-ne_nil (N.shown l.price) _ (Survives-ne_nil N N.shown l.price n w.price_survives)

encode_levels-HasLast :
    (N : DoubleText) (l : BookLevel) (ls : List BookLevel)
    → IsNumeric N
    → All (WritableLevel N) (l ∷ ls)
    → HasLast (map (encode_level N) (l ∷ ls))
encode_levels-HasLast N l [] n w = encode_level-ne_nil N l n w.0
encode_levels-HasLast N l (m ∷ ls) n w = encode_levels-HasLast N m ls n w.1

encode_book_levels-ne_nil :
    (N : DoubleText) (l : BookLevel) (ls : List BookLevel)
    → IsNumeric N
    → WritableLevel N l
    → encode_book_levels N (l ∷ ls) ≢ ""
unfolding encode_book_levels joined
encode_book_levels-ne_nil N l [] n w = encode_level-ne_nil N l n w
encode_book_levels-ne_nil N l (m ∷ ls) n w =
    append-ne_nil (encode_level N l) _ (encode_level-ne_nil N l n w)

pub decode-encode_book_levels :
    (N : DoubleText) (ls : List BookLevel)
    → IsNumeric N
    → All (WritableLevel N) ls
    → decode_book_levels N (encode_book_levels N ls) ≡ some ls
unfolding decode_book_levels encode_book_levels
decode-encode_book_levels N [] n w = refl
decode-encode_book_levels N (l ∷ ls) n w =
    rw
      (
        is_empty-false _ (encode_book_levels-ne_nil N l ls n w.0),
        split_on-joined b',' "," (map (encode_level N) (l ∷ ls)) refl
            (encode_levels-Lacks N b',' (l ∷ ls) n refl refl) (encode_levels-HasLast N l ls n w),
      )
      (decode-map-encode_level N (l ∷ ls) n w)

pub encode_book_levels-IsField :
    (N : DoubleText) (ls : List BookLevel) → IsNumeric N → IsField (encode_book_levels N ls)
unfolding encode_book_levels
encode_book_levels-IsField N ls n = (
  joined-Lacks b'\t' "," _ (refl, tt) (encode_levels-Lacks N b'\t' ls n refl refl),
  joined-Lacks b'\n' "," _ (refl, tt) (encode_levels-Lacks N b'\n' ls n refl refl),
)
