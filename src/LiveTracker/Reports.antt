-- ===== src/LiveTracker/Reports.antt =====
-- The reports of an exchange in src/execution/live_execution_tracker.cpp: `apply_report`,
-- `reconcile` and `get_order`.
use mathlib.Core.Option
use Prim.Native.String.{◌++◌ as ◌<>◌}
use wall.Core.{Double, FillEvent, OrderRecord, OrderUpdate}
use wall.LiveTracker.{
  ExecutionReport, LiveExecutionTracker, LocalOrderState, ReconciliationResult, should_apply_status,
  should_ignore_as_stale,
}
use wall.Prelude.{
  List, Option, String, [], false, if◌then◌else◌, inc_u64, none, not, some, true, value_or, ℕ, ◌&&◌,
  ◌∷◌,
}
use wall.Prelude.Dict.{contains, insert, lookup}
use wall.Prelude.Int.{ltb_ℤ, max_ℤ, pos, ◌-ℤ◌}
use wall.Prelude.Text.{is_empty, to_string}

abbrev nothing : ReconciliationResult
nothing = record {
  applied = false;
  ignored_duplicate = false;
  ignored_stale = false;
  updates = [];
  fills = [];
}

abbrev pub stale : ReconciliationResult
stale = record nothing { ignored_stale = true }

abbrev pub duplicate : ReconciliationResult
duplicate = record nothing { ignored_duplicate = true }

abbrev pub new_cumulative : LocalOrderState → ExecutionReport → Double
new_cumulative o r = max_ℤ r.cumulative_filled_quantity o.filled_quantity

abbrev pub fill_delta : LocalOrderState → ExecutionReport → Double
fill_delta o r = new_cumulative o r -ℤ o.filled_quantity

abbrev pub report_fill : LocalOrderState → ExecutionReport → ℕ → FillEvent
report_fill o r n = record {
  fill_id = if is_empty r.report_id then "live-fill-" <> to_string n else r.report_id;
  order_id = r.order_id;
  instrument = if is_empty r.instrument.instrument_id then o.request.instrument else r.instrument;
  side = r.side;
  price = value_or r.last_fill_price (value_or o.request.price (pos 0));
  quantity = fill_delta o r;
  fee = r.last_fill_fee;
}

-- The order with the report's status, in the last branch of `apply_report` that returns.
abbrev pub with_report : LocalOrderState → ExecutionReport → Double → LocalOrderState
with_report o r q = record o {
  filled_quantity = q;
  status = r.status;
  client_order_id = if is_empty r.client_order_id then o.client_order_id else r.client_order_id;
  last_exchange_timestamp = max_ℤ o.last_exchange_timestamp r.exchange_timestamp;
}

abbrev pub report_update : LocalOrderState → ExecutionReport → OrderUpdate
report_update o r = record {
  order_id = r.order_id;
  client_order_id = o.client_order_id;
  status = o.status;
  filled_quantity = o.filled_quantity;
  reason = r.reason;
}

-- `apply_report` once the order is found and the report is not stale: the order, the fill counter
-- and the result.
unfoldable pub apply_fresh :
    LocalOrderState → ExecutionReport → ℕ → LocalOrderState × ℕ × ReconciliationResult
apply_fresh o r n =
    if ltb_ℤ (pos 0) (fill_delta o r)
    then (let o' = with_report o r (new_cumulative o r) in
        (
          o',
          if is_empty r.report_id then inc_u64 n else n,
          record nothing {
            applied = true;
            updates = report_update o' r ∷ [];
            fills = report_fill o r n ∷ [];
          },
        ))
    else if should_apply_status o.status r.status
    then (let o' = with_report o r o.filled_quantity in
        (o', n, record nothing { applied = true; updates = report_update o' r ∷ [] }))
    else (
      record o {
        last_exchange_timestamp =
            if ltb_ℤ o.last_exchange_timestamp r.exchange_timestamp
            then r.exchange_timestamp
            else o.last_exchange_timestamp;
      },
      n,
      nothing,
    )

abbrev pub stored :
    LiveExecutionTracker
    → String
    → LocalOrderState × ℕ × ReconciliationResult
    → LiveExecutionTracker × ReconciliationResult
stored t k (o, n, result) = (record t { orders = insert k o t.orders; next_fill_id = n }, result)

abbrev pub apply_known :
    LiveExecutionTracker
    → ExecutionReport
    → Option LocalOrderState
    → LiveExecutionTracker × ReconciliationResult
apply_known t r none = (t, stale)
apply_known t r (some o) =
    if should_ignore_as_stale o r
    then (t, stale)
    else stored t r.order_id (apply_fresh o r t.next_fill_id)

-- `processed_report_ids_.insert(id)`, of an id that is not there.
abbrev pub marked : LiveExecutionTracker → ExecutionReport → LiveExecutionTracker
marked t r =
    if is_empty r.report_id
    then t
    else record t { processed_report_ids = insert r.report_id tt t.processed_report_ids }

unfoldable pub apply_report :
    LiveExecutionTracker → ExecutionReport → LiveExecutionTracker × ReconciliationResult
apply_report t r =
    if not (is_empty r.report_id) && contains r.report_id t.processed_report_ids
    then (t, duplicate)
    else apply_known (marked t r) r (lookup r.order_id t.orders)

unfoldable pub reconcile :
    LiveExecutionTracker → List ExecutionReport → LiveExecutionTracker × List ReconciliationResult
reconcile t [] = (t, [])
reconcile t (r ∷ rs) =
    let (t', result) = apply_report t r in
    let (t'', results) = reconcile t' rs in (t'', result ∷ results)

abbrev pub record_of : LocalOrderState → OrderRecord
record_of o = record {
  order_id = o.order_id;
  client_order_id = o.client_order_id;
  strategy_id = o.request.strategy_id;
  instrument_id = o.request.instrument.instrument_id;
  side = o.request.side;
  order_type = o.request.order_type;
  status = o.status;
  quantity = o.request.quantity;
  price = o.request.price;
  filled_quantity = o.filled_quantity;
}

unfoldable pub get_order : LiveExecutionTracker → String → Option OrderRecord
get_order t k = Option.map record_of (lookup k t.orders)
