-- ===== src/Recovery/Offsets.antt =====
-- The offsets of src/app/recovery_service.cpp.
use wall.Core.{Int64}
use wall.Prelude.{
  All, Bool-cases, List, Option-cases, String, [], ap, arith, false, foldl, if◌then◌else◌, inl, inr,
  ite, some, subst, sym, true, ◌∙◌, ◌∷◌, ◌≡◌,
}
use wall.Prelude.Dict.{Dict, insert, lookup, lookup-insert_ne, lookup-insert_self}
use wall.Prelude.Int.{ltb_ℤ, ◌≤ℤ◌}
use wall.Prelude.Text.{dec_str}
use wall.Recovery.{checkpoint_of, is_newer, note_record, record_key}
use wall.Storage.{KafkaCheckpoint, TransactionRecord}

-- A partition's checkpoint is at an offset or beyond.
abbrev pub ReachesOffset : Dict KafkaCheckpoint → String → Int64 → Type 0
ReachesOffset d k n = (c : KafkaCheckpoint) × (lookup k d ≡ some c) × (n ≤ℤ c.offset)

newer-reaches :
    (d : Dict KafkaCheckpoint) (r : TransactionRecord) (k : String) (n : Int64)
    → ReachesOffset d k n
    → is_newer r (lookup (record_key r) d) ≡ true
    → ReachesOffset (insert (record_key r) (checkpoint_of r) d) k n
newer-reaches d r k n (c, e, l) newer = elim (dec_str k (record_key r)) [
  | yes p ↦
      let here = ap (λ j. lookup j d) (sym p) ∙ e in
      let above : ltb_ℤ c.offset r.kafka_offset ≡ true =
        subst (λ o. is_newer r o ≡ true) here newer in
      (
        checkpoint_of r,
        ap (λ j. lookup j (insert (record_key r) (checkpoint_of r) d)) p
            ∙ lookup-insert_self (record_key r) (checkpoint_of r) d,
        ground (arith, above, l),
      )
  | no ne ↦ (c, lookup-insert_ne k (record_key r) (checkpoint_of r) d ne ∙ e, l)
]

note_record-keeps :
    (d : Dict KafkaCheckpoint) (r : TransactionRecord) (k : String) (n : Int64)
    → ReachesOffset d k n
    → ReachesOffset (note_record d r) k n
unfolding note_record
note_record-keeps d r k n h =
    elim (dec_str r.status "processed")
      as (λ x.
        ReachesOffset
          (ite x
            (if is_newer r (lookup (record_key r) d)
              then insert (record_key r) (checkpoint_of r) d
              else d)
            d)
          k n) [
            | yes p ↦ elim (Bool-cases (is_newer r (lookup (record_key r) d))) [
              | inl newer ↦ rw newer (newer-reaches d r k n h newer)
              | inr older ↦ rw older h
            ]
            | no ne ↦ h
          ]

older-reaches :
    (d : Dict KafkaCheckpoint) (r : TransactionRecord)
    → is_newer r (lookup (record_key r) d) ≡ false
    → ReachesOffset d (record_key r) r.kafka_offset
older-reaches d r older = elim (Option-cases (lookup (record_key r) d)) [
  | inl e ↦ absurd (ground arith)
  | inr (c, e) ↦
      let above : ltb_ℤ c.offset r.kafka_offset ≡ false =
        subst (λ o. is_newer r o ≡ false) e older in
      (c, e, ground (arith, above))
]

note_record-reaches :
    (d : Dict KafkaCheckpoint) (r : TransactionRecord)
    → r.status ≡ "processed"
    → ReachesOffset (note_record d r) (record_key r) r.kafka_offset
unfolding note_record
note_record-reaches d r p =
    elim (dec_str r.status "processed")
      as (λ x.
        ReachesOffset
          (ite x
            (if is_newer r (lookup (record_key r) d)
              then insert (record_key r) (checkpoint_of r) d
              else d)
            d)
          (record_key r) r.kafka_offset) [
            | yes q ↦ elim (Bool-cases (is_newer r (lookup (record_key r) d))) [
              | inl newer ↦ rw newer (
                checkpoint_of r,
                lookup-insert_self (record_key r) (checkpoint_of r) d,
                omega arith,
              )
              | inr older ↦ rw older (older-reaches d r older)
            ]
            | no ne ↦ absurd (ne p)
          ]

-- The processed records of a list.
abbrev pub AllReached : Dict KafkaCheckpoint → List TransactionRecord → Type 0
AllReached d rs =
    All (λ r. r.status ≡ "processed" → ReachesOffset d (record_key r) r.kafka_offset) rs

notes-keep :
    (rs : List TransactionRecord) (d : Dict KafkaCheckpoint) (k : String) (n : Int64)
    → ReachesOffset d k n
    → ReachesOffset (foldl note_record d rs) k n
notes-keep [] d k n h = h
notes-keep (r ∷ rs) d k n h = notes-keep rs (note_record d r) k n (note_record-keeps d r k n h)

-- The checkpoints that recovery makes from the records of the transactions are at or beyond the
-- offset of every processed transaction of their partition.
pub note_records-AllReached :
    (rs : List TransactionRecord) (d : Dict KafkaCheckpoint)
    → AllReached (foldl note_record d rs) rs
note_records-AllReached [] d = tt
note_records-AllReached (r ∷ rs) d = (
  λ p. notes-keep rs (note_record d r) (record_key r) r.kafka_offset (note_record-reaches d r p),
  note_records-AllReached rs (note_record d r),
)
