-- ===== src/LiveTracker.antt =====
-- include/execution/live_execution_tracker.hpp and src/execution/live_execution_tracker.cpp: local
-- order state reconciled with the reports of an exchange. Here stand its state, the registration of
-- orders and the tests on a report's status.
pub mod Reports
pub mod Laws
use wall.Core.{
  Double, FillEvent, Instrument, Int64, OrderRecord, OrderRequest, OrderSide, OrderStatus,
  OrderUpdate, acknowledged, bare_instrument, canceled, created, expired, filled, is_terminal,
  partially_filled, pending_cancel, pending_submit, rejected,
}
use wall.Prelude.{Bool, List, Option, String, [], false, if◌then◌else◌, not, true, ℕ, ◌&&◌}
use wall.Prelude.Dict.{Dict, insert}
use wall.Prelude.Int.{leb_ℤ, ltb_ℤ, pos}

pub record ExecutionReport : Type 0 where
  pub report_id : String
  pub order_id : String
  pub client_order_id : String
  pub instrument : Instrument
  pub side : OrderSide
  pub status : OrderStatus
  pub cumulative_filled_quantity : Double
  pub last_fill_price : Option Double
  pub last_fill_fee : Double
  pub reason : Option String
  pub exchange_timestamp : Int64

pub record ReconciliationResult : Type 0 where
  pub applied : Bool
  pub ignored_duplicate : Bool
  pub ignored_stale : Bool
  pub updates : List OrderUpdate
  pub fills : List FillEvent

pub record LocalOrderState : Type 0 where
  pub request : OrderRequest
  pub order_id : String
  pub client_order_id : String
  pub status : OrderStatus
  pub filled_quantity : Double
  pub last_exchange_timestamp : Int64

-- `processed_report_ids_` is a set: a dictionary to the unit type.
pub record LiveExecutionTracker : Type 0 where
  pub orders : Dict LocalOrderState
  pub processed_report_ids : Dict (Unit {0})
  pub next_fill_id : ℕ

unfoldable pub new_tracker : LiveExecutionTracker
new_tracker = record { orders = []; processed_report_ids = []; next_fill_id = 1 }

unfoldable pub register_order :
    LiveExecutionTracker → OrderRequest → String → String → LiveExecutionTracker
register_order t r order_id client_order_id = record t {
  orders =
      insert order_id
        (record {
          request = r;
          order_id = order_id;
          client_order_id = client_order_id;
          status = pending_submit;
          filled_quantity = pos 0;
          last_exchange_timestamp = pos 0;
        })
        t.orders;
}

abbrev pub request_of : OrderRecord → OrderRequest
request_of o = record {
  request_id = o.order_id;
  strategy_id = o.strategy_id;
  instrument = bare_instrument o.instrument_id;
  side = o.side;
  order_type = o.order_type;
  quantity = o.quantity;
  price = o.price;
}

unfoldable pub restore_order : LiveExecutionTracker → OrderRecord → LiveExecutionTracker
restore_order t o = record t {
  orders =
      insert o.order_id
        (record {
          request = request_of o;
          order_id = o.order_id;
          client_order_id = o.client_order_id;
          status = o.status;
          filled_quantity = o.filled_quantity;
          last_exchange_timestamp = pos 0;
        })
        t.orders;
}

pub OrderStatus-discrete : Discrete OrderStatus
OrderStatus-discrete = hlevel

-- `incoming == current`
unfoldable pub same_status : OrderStatus → OrderStatus → Bool
same_status created created = true
same_status pending_submit pending_submit = true
same_status acknowledged acknowledged = true
same_status partially_filled partially_filled = true
same_status filled filled = true
same_status pending_cancel pending_cancel = true
same_status canceled canceled = true
same_status rejected rejected = true
same_status expired expired = true
same_status _ _ = false

unfoldable pub should_ignore_as_stale : LocalOrderState → ExecutionReport → Bool
should_ignore_as_stale o r =
    if ltb_ℤ r.cumulative_filled_quantity o.filled_quantity
    then true
    else if ltb_ℤ (pos 0) r.exchange_timestamp
        && (ltb_ℤ (pos 0) o.last_exchange_timestamp
            && (ltb_ℤ r.exchange_timestamp o.last_exchange_timestamp
                && leb_ℤ r.cumulative_filled_quantity o.filled_quantity))
    then true
    else is_terminal o.status
      && (leb_ℤ r.cumulative_filled_quantity o.filled_quantity
          && not (same_status r.status o.status))

-- The `switch` of `should_apply_status`, whose first two tests stand before it.
abbrev pub may_follow : OrderStatus → OrderStatus → Bool
may_follow created i = true
may_follow pending_submit i = true
may_follow acknowledged created = false
may_follow acknowledged pending_submit = false
may_follow acknowledged acknowledged = false
may_follow acknowledged i = true
may_follow partially_filled created = false
may_follow partially_filled pending_submit = false
may_follow partially_filled acknowledged = false
may_follow partially_filled i = true
may_follow pending_cancel canceled = true
may_follow pending_cancel filled = true
may_follow pending_cancel partially_filled = true
may_follow pending_cancel i = false
may_follow c i = false

unfoldable pub should_apply_status : OrderStatus → OrderStatus → Bool
unfolding same_status
should_apply_status current incoming =
    if same_status incoming current
    then false
    else if is_terminal current
    then false
    else may_follow current incoming
