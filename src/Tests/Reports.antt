-- ===== src/Tests/Reports.antt =====
-- Reports of an exchange in src/execution/live_execution_tracker.cpp.
use wall.Core.{OrderStatus, acknowledged, buy, partially_filled, pending_submit}
use wall.LiveTracker.{
  ExecutionReport, LiveExecutionTracker, LocalOrderState, new_tracker, register_order,
}
use wall.LiveTracker.Laws.{
  KeptOrder, all_fills, apply_report-KeptOrder, apply_report_again, fills_of,
  reconcile-filled_quantity,
}
use wall.LiveTracker.Reports.{apply_report, duplicate, reconcile}
use wall.Prelude.{List, String, [], none, refl, some, ℕ, ◌∷◌, ◌≡◌}
use wall.Prelude.Dict.{lookup, lookup-insert_self}
use wall.Prelude.Int.{pos, ◌+ℤ◌, ◌≤ℤ◌}
use wall.Samples.{btc, order_at, units}

abbrev tracked : LiveExecutionTracker
tracked = register_order new_tracker (order_at buy 5 100) "order-1" "client-1"

abbrev report_of : String → OrderStatus → ℕ → ExecutionReport
report_of id status filled_units = record {
  report_id = id;
  order_id = "order-1";
  client_order_id = "client-1";
  instrument = btc;
  side = buy;
  status = status;
  cumulative_filled_quantity = units filled_units;
  last_fill_price = some (units 100);
  last_fill_fee = pos 0;
  reason = none;
  exchange_timestamp = pos 5;
}

abbrev initial : LocalOrderState
initial = record {
  request = order_at buy 5 100;
  order_id = "order-1";
  client_order_id = "client-1";
  status = pending_submit;
  filled_quantity = pos 0;
  last_exchange_timestamp = pos 0;
}

is_tracked : lookup "order-1" tracked.orders ≡ some initial
unfolding register_order
is_tracked = lookup-insert_self "order-1" initial new_tracker.orders

-- A partial fill, its repetition, a late acknowledgement and the last fill.
abbrev reports : List ExecutionReport
reports =
    report_of "report-1" partially_filled 2
    ∷ report_of "report-1" partially_filled 2
    ∷ report_of "report-2" acknowledged 0
    ∷ report_of "report-3" OrderStatus.filled 5
    ∷ []

reconcile-filled_quantity_example :
    (o' : LocalOrderState) × (lookup "order-1" (reconcile tracked reports).0.orders ≡ some o')
    × (o'.filled_quantity
        ≡ initial.filled_quantity +ℤ fills_of "order-1" (all_fills (reconcile tracked reports).1))
    × (initial.filled_quantity ≤ℤ o'.filled_quantity)
reconcile-filled_quantity_example =
    reconcile-filled_quantity reports tracked "order-1" initial is_tracked

abbrev first_report : ExecutionReport
first_report = report_of "report-1" partially_filled 2

apply_report_again_example :
    apply_report (apply_report tracked first_report).0 first_report
    ≡ ((apply_report tracked first_report).0, duplicate)
apply_report_again_example = apply_report_again tracked first_report refl

apply_report-KeptOrder_example :
    KeptOrder "order-1" initial
      (apply_report tracked first_report).0
      (apply_report tracked first_report).1.fills
apply_report-KeptOrder_example =
    apply_report-KeptOrder tracked first_report "order-1" initial is_tracked
