-- ===== src/FileStore/Journals.antt =====
-- `PostgresFillRepository`, `PostgresOrderIntentRepository` and `PostgresExecutionReportRepository` of
-- src/infrastructure/postgres_repositories.cpp.
pub mod Restart
pub mod Intents
use wall.Core.{FillEvent}
use wall.Fields.{◌>>=◌}
use wall.Fields.Doubles.{DoubleText, decode_optional_double, encode_optional_double, stod}
use wall.Fields.Instruments.{instrument_fields, instrument_of}
use wall.Fields.Integers.{print_integer, stoll}
use wall.FileStore.{File, Journal, appended, open_journal, side_index, status_index, type_index}
use wall.FileStore.Enumerators.{read_side, read_status, read_type}
use wall.Prelude.{List, Option, String, [], if◌then◌else◌, none, some, value_or, ◌++◌, ◌∷◌}
use wall.Prelude.Text.{is_empty}
use wall.Storage.{ExecutionReportRecord, OrderIntentRecord}

unfoldable pub fill_fields : DoubleText → FillEvent → List String
unfolding instrument_fields
fill_fields N f =
    f.fill_id
    ∷ f.order_id
    ∷ (instrument_fields N f.instrument
        ++ (print_integer (side_index f.side)
            ∷ N.shown f.price
            ∷ N.shown f.quantity
            ∷ N.shown f.fee
            ∷ []))

unfoldable pub fill_of : DoubleText → List String → Option FillEvent
unfolding stod instrument_of read_side
fill_of N
      (id ∷ order ∷ instrument ∷ exchange ∷ symbol ∷ base ∷ quote ∷ tick ∷ lot ∷ side ∷ price
        ∷ quantity ∷ fee ∷ []) =
    do
      i ← instrument_of N instrument exchange symbol base quote tick lot
      s ← read_side side
      p ← stod N price
      q ← stod N quantity
      f ← stod N fee
      some (record {
        fill_id = id;
        order_id = order;
        instrument = i;
        side = s;
        price = p;
        quantity = q;
        fee = f;
      })
fill_of N _ = none

unfoldable pub open_fills : DoubleText → File → Option (Journal FillEvent)
unfolding open_journal fill_of
open_fills N file = open_journal 13 (fill_of N) file

unfoldable pub append_fill : DoubleText → Journal FillEvent → FillEvent → Journal FillEvent
unfolding appended fill_fields
append_fill N j f = appended (fill_fields N) j f

unfoldable pub intent_fields : DoubleText → OrderIntentRecord → List String
unfolding encode_optional_double
intent_fields N i =
    i.request_id
    ∷ i.strategy_id
    ∷ i.instrument_id
    ∷ print_integer (side_index i.side)
    ∷ print_integer (type_index i.order_type)
    ∷ N.shown17 i.quantity
    ∷ encode_optional_double N i.price
    ∷ []

unfoldable pub intent_of : DoubleText → List String → Option OrderIntentRecord
unfolding stod decode_optional_double read_side read_type
intent_of N (id ∷ strategy ∷ instrument ∷ side ∷ type ∷ quantity ∷ price ∷ []) = do
  s ← read_side side
  t ← read_type type
  q ← stod N quantity
  p ← decode_optional_double N price
  some (record {
    request_id = id;
    strategy_id = strategy;
    instrument_id = instrument;
    side = s;
    order_type = t;
    quantity = q;
    price = p;
  })
intent_of N _ = none

unfoldable pub open_intents : DoubleText → File → Option (Journal OrderIntentRecord)
unfolding open_journal intent_of
open_intents N file = open_journal 7 (intent_of N) file

unfoldable pub append_intent :
    DoubleText → Journal OrderIntentRecord → OrderIntentRecord → Journal OrderIntentRecord
unfolding appended intent_fields
append_intent N j i = appended (intent_fields N) j i

-- `fields[9].empty() ? std::nullopt : …`
unfoldable pub reason_of : String → Option String
reason_of s = if is_empty s then none else some s

unfoldable pub report_fields : DoubleText → ExecutionReportRecord → List String
unfolding encode_optional_double
report_fields N r =
    r.report_id
    ∷ r.order_id
    ∷ r.client_order_id
    ∷ r.instrument_id
    ∷ print_integer (side_index r.side)
    ∷ print_integer (status_index r.status)
    ∷ N.shown17 r.cumulative_filled_quantity
    ∷ encode_optional_double N r.last_fill_price
    ∷ N.shown17 r.last_fill_fee
    ∷ value_or r.reason ""
    ∷ print_integer r.exchange_timestamp
    ∷ []

unfoldable pub report_of : DoubleText → List String → Option ExecutionReportRecord
unfolding stod decode_optional_double read_side read_status stoll reason_of
report_of N
      (id ∷ order ∷ client ∷ instrument ∷ side ∷ status ∷ quantity ∷ price ∷ fee ∷ reason
        ∷ timestamp ∷ []) =
    do
      s ← read_side side
      st ← read_status status
      q ← stod N quantity
      p ← decode_optional_double N price
      f ← stod N fee
      t ← stoll timestamp
      some (record {
        report_id = id;
        order_id = order;
        client_order_id = client;
        instrument_id = instrument;
        side = s;
        status = st;
        cumulative_filled_quantity = q;
        last_fill_price = p;
        last_fill_fee = f;
        reason = reason_of reason;
        exchange_timestamp = t;
      })
report_of N _ = none

unfoldable pub open_reports : DoubleText → File → Option (Journal ExecutionReportRecord)
unfolding open_journal report_of
open_reports N file = open_journal 11 (report_of N) file

unfoldable pub append_report :
    DoubleText
    → Journal ExecutionReportRecord
    → ExecutionReportRecord
    → Journal ExecutionReportRecord
unfolding appended report_fields
append_report N j r = appended (report_fields N) j r
