-- ===== src/FileStore/Journals/Restart.antt =====
-- The fills and the reports of src/infrastructure/postgres_repositories.cpp survive a restart.
use wall.Core.{FillEvent}
use wall.Fields.Digits.{Fits, print_integer-IsField, print_integer-ne_nil, stoll-print_integer}
use wall.Fields.Doubles.{
  DoubleText, IsNumeric, OptionSurvives, Survives, Survives-ne_nil, decode-encode_optional_double,
  encode_optional_double-IsField, is_empty-false, stod-Survives,
}
use wall.Fields.Instruments.{
  WritableInstrument, instrument_fields, instrument_fields-IsField, instrument_of-fields,
  shown-IsField, shown17-IsField,
}
use wall.Fields.Integers.{int64_bound, print_integer}
use wall.Fields.Laws.{IsField}
use wall.FileStore.{no_journal, side_index, status_index}
use wall.FileStore.Enumerators.{read_side-side_index, read_status-status_index}
use wall.FileStore.Journals.{
  append_fill, append_report, fill_fields, fill_of, open_fills, open_reports, reason_of,
  report_fields, report_of,
}
use wall.FileStore.Reload.{Storable}
use wall.FileStore.Resume.{open_journal-journal_of}
use wall.Prelude.{
  All, All-map, List, Option, String, [], foldl, none, refl, some, value_or, ◌∷◌, ◌≡◌, ◌≢◌, ◌⊳◌,
}
use wall.Storage.{ExecutionReportRecord}

pub record WritableFill (N : DoubleText) (f : FillEvent) : Type 0 where
  pub id_field : IsField f.fill_id
  pub order_field : IsField f.order_id
  pub instrument_writable : WritableInstrument N f.instrument
  pub price_survives : Survives N N.shown f.price
  pub quantity_survives : Survives N N.shown f.quantity
  pub fee_survives : Survives N N.shown f.fee

fill_of-fill_fields :
    (N : DoubleText) (f : FillEvent) → WritableFill N f → fill_of N (fill_fields N f) ≡ some f
unfolding fill_of fill_fields instrument_fields
fill_of-fill_fields N f w =
    rw
      (
        instrument_of-fields N f.instrument w.instrument_writable,
        read_side-side_index f.side,
        stod-Survives N N.shown f.price w.price_survives,
        stod-Survives N N.shown f.quantity w.quantity_survives,
        stod-Survives N N.shown f.fee w.fee_survives,
      )
      refl

WritableFill-Storable :
    (N : DoubleText) (f : FillEvent)
    → IsNumeric N
    → WritableFill N f
    → Storable 13 (fill_of N) (fill_fields N) f
unfolding fill_fields instrument_fields
WritableFill-Storable N f n w = record {
  fields =
      w.id_field
      ⊳ w.order_field
      ⊳ instrument_fields-IsField N f.instrument
          (print_integer (side_index f.side)
            ∷ N.shown f.price
            ∷ N.shown f.quantity
            ∷ N.shown f.fee
            ∷ [])
          n w.instrument_writable
          (print_integer-IsField (side_index f.side)
            ⊳ shown-IsField N n f.price
            ⊳ shown-IsField N n f.quantity
            ⊳ shown-IsField N n f.fee
            ⊳ tt);
  last = Survives-ne_nil N N.shown f.fee n w.fee_survives;
  width_is = refl;
  read = fill_of-fill_fields N f w;
}

-- The fills that were appended to a new fill repository are the ones that it holds, in their order, and
-- a repository that is opened on the file that it left is the same repository: if their texts hold no tab
-- and no line end, and their numbers come back from the digits that are written of them.
pub open_fills-append_fill :
    (N : DoubleText) (fs : List FillEvent)
    → IsNumeric N
    → All (WritableFill N) fs
    → (open_fills N (foldl (append_fill N) no_journal fs).file
        ≡ some (foldl (append_fill N) no_journal fs))
      × ((foldl (append_fill N) no_journal fs).rows ≡ fs)
unfolding open_fills append_fill
open_fills-append_fill N fs n w =
    open_journal-journal_of (fill_fields N) 13 (fill_of N) fs
      (All-map (λ f h. WritableFill-Storable N f n h) fs w)

-- A reason that is there is not empty: an empty one is written like none.
abbrev pub IsReason : Option String → Type 0
IsReason none = Unit {0}
IsReason (some s) = IsField s × (s ≢ "")

pub record WritableReport (N : DoubleText) (r : ExecutionReportRecord) : Type 0 where
  pub id_field : IsField r.report_id
  pub order_field : IsField r.order_id
  pub client_field : IsField r.client_order_id
  pub instrument_field : IsField r.instrument_id
  pub quantity_survives : Survives N N.shown17 r.cumulative_filled_quantity
  pub price_survives : OptionSurvives N r.last_fill_price
  pub fee_survives : Survives N N.shown17 r.last_fill_fee
  pub is_reason : IsReason r.reason
  pub timestamp_fits : Fits int64_bound r.exchange_timestamp

reason_of-value_or : (o : Option String) → IsReason o → reason_of (value_or o "") ≡ o
unfolding reason_of
reason_of-value_or none h = refl
reason_of-value_or (some s) h = rw (is_empty-false s h.1) refl

reason-IsField : (o : Option String) → IsReason o → IsField (value_or o "")
reason-IsField none h = (tt, tt)
reason-IsField (some s) h = h.0

report_of-report_fields :
    (N : DoubleText) (r : ExecutionReportRecord)
    → IsNumeric N
    → WritableReport N r
    → report_of N (report_fields N r) ≡ some r
unfolding report_of report_fields
report_of-report_fields N r n w =
    rw
      (
        read_side-side_index r.side,
        read_status-status_index r.status,
        stod-Survives N N.shown17 r.cumulative_filled_quantity w.quantity_survives,
        decode-encode_optional_double N r.last_fill_price n w.price_survives,
        stod-Survives N N.shown17 r.last_fill_fee w.fee_survives,
        stoll-print_integer r.exchange_timestamp w.timestamp_fits,
        reason_of-value_or r.reason w.is_reason,
      )
      refl

WritableReport-Storable :
    (N : DoubleText) (r : ExecutionReportRecord)
    → IsNumeric N
    → WritableReport N r
    → Storable 11 (report_of N) (report_fields N) r
unfolding report_fields
WritableReport-Storable N r n w = record {
  fields =
      w.id_field
      ⊳ w.order_field
      ⊳ w.client_field
      ⊳ w.instrument_field
      ⊳ print_integer-IsField (side_index r.side)
      ⊳ print_integer-IsField (status_index r.status)
      ⊳ shown17-IsField N n r.cumulative_filled_quantity
      ⊳ encode_optional_double-IsField N r.last_fill_price n
      ⊳ shown17-IsField N n r.last_fill_fee
      ⊳ reason-IsField r.reason w.is_reason
      ⊳ print_integer-IsField r.exchange_timestamp
      ⊳ tt;
  last = print_integer-ne_nil r.exchange_timestamp;
  width_is = refl;
  read = report_of-report_fields N r n w;
}

-- The reports that were appended to a new report repository are the ones that it holds, in their order,
-- and a repository that is opened on the file that it left is the same repository: if their texts hold no
-- tab and no line end, no reason that is there is empty, the timestamps fit 64 bits, and the other
-- numbers come back from the digits that are written of them.
pub open_reports-append_report :
    (N : DoubleText) (rs : List ExecutionReportRecord)
    → IsNumeric N
    → All (WritableReport N) rs
    → (open_reports N (foldl (append_report N) no_journal rs).file
        ≡ some (foldl (append_report N) no_journal rs))
      × ((foldl (append_report N) no_journal rs).rows ≡ rs)
unfolding open_reports append_report
open_reports-append_report N rs n w =
    open_journal-journal_of (report_fields N) 11 (report_of N) rs
      (All-map (λ r h. WritableReport-Storable N r n h) rs w)
