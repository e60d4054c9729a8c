-- ===== src/Exchange/ExecutionAdapter.antt =====
-- The execution adapters of src/exchange/exchange_execution_adapter.cpp: over the simulator, and over the
-- live order tracker.
use Prim.Native.String.{◌++◌ as ◌<>◌}
use wall.Simulator.{submit as simulator_submit}
use wall.Core.{ExecutionResult, OrderRequest, OrderStatus, pending_cancel, pending_submit, rejected}
use wall.Core.Arithmetic.{Arithmetic}
use wall.LiveTracker.{
  ExecutionReport, LiveExecutionTracker, ReconciliationResult, new_tracker, register_order,
}
use wall.LiveTracker.Reports.{apply_report}
use wall.Prelude.{Bool, Option, String, [], false, if◌then◌else◌, inc_u64, none, some, true, ℕ, ◌∷◌}
use wall.Prelude.Int.{pos}
use wall.Prelude.Text.{is_empty, to_string}
use wall.Simulator.{SimulatedExecutionEngine, cancel_open_order}

pub record ExchangeExecutionCapabilities : Type 0 where
  pub supports_cancel : Bool
  pub supports_replace : Bool
  pub supports_market_orders : Bool

pub record MockLiveExchangeExecutionAdapter : Type 0 where
  pub tracker : LiveExecutionTracker
  pub next_order_id : ℕ
  pub next_client_order_id : ℕ

abbrev pub new_live_adapter : MockLiveExchangeExecutionAdapter
new_live_adapter = record { tracker = new_tracker; next_order_id = 1; next_client_order_id = 1 }

-- The two implementations of `IExchangeExecutionAdapter`.
pub data ExecutionAdapter : Type 0 where
  simulated : SimulatedExecutionEngine → ExecutionAdapter
  live : MockLiveExchangeExecutionAdapter → ExecutionAdapter

unfoldable pub capabilities : ExecutionAdapter → ExchangeExecutionCapabilities
capabilities (simulated _) = record {
  supports_cancel = true;
  supports_replace = false;
  supports_market_orders = false;
}
capabilities (live _) = record {
  supports_cancel = true;
  supports_replace = false;
  supports_market_orders = true;
}

-- A result with one update and no fill.
abbrev pub one_update : String → String → OrderStatus → Option String → ExecutionResult
one_update id client_id st why = record {
  order_id = id;
  client_order_id = client_id;
  updates =
      (record {
        order_id = id;
        client_order_id = client_id;
        status = st;
        filled_quantity = pos 0;
        reason = why;
      })
      ∷ [];
  fills = [];
}

abbrev pub live_order_id : MockLiveExchangeExecutionAdapter → String
live_order_id a = "live-order-" <> to_string a.next_order_id

abbrev pub live_client_id : MockLiveExchangeExecutionAdapter → String
live_client_id a = "live-client-" <> to_string a.next_client_order_id

unfoldable pub live_submit :
    MockLiveExchangeExecutionAdapter
    → OrderRequest
    → MockLiveExchangeExecutionAdapter × ExecutionResult
live_submit a r = (
  record {
    tracker = register_order a.tracker r (live_order_id a) (live_client_id a);
    next_order_id = inc_u64 a.next_order_id;
    next_client_order_id = inc_u64 a.next_client_order_id;
  },
  one_update (live_order_id a) (live_client_id a) pending_submit none,
)

abbrev pub as_simulated :
    SimulatedExecutionEngine × ExecutionResult → ExecutionAdapter × ExecutionResult
as_simulated (e, x) = (simulated e, x)

abbrev pub as_live :
    MockLiveExchangeExecutionAdapter × ExecutionResult → ExecutionAdapter × ExecutionResult
as_live (a, x) = (live a, x)

unfoldable pub adapter_submit :
    Arithmetic → ExecutionAdapter → OrderRequest → ExecutionAdapter × ExecutionResult
unfolding live_submit
adapter_submit A (simulated e) r = as_simulated (simulator_submit A e r)
adapter_submit A (live a) r = as_live (live_submit a r)

unfoldable pub adapter_cancel :
    ExecutionAdapter → String → String → ExecutionAdapter × ExecutionResult
adapter_cancel (simulated e) id client_id =
    if is_empty id
    then (simulated e, one_update id client_id rejected (some "missing order_id for cancel"))
    else as_simulated (cancel_open_order e id)
adapter_cancel (live a) id client_id = (live a, one_update id client_id pending_cancel none)

unfoldable pub apply_exchange_report :
    MockLiveExchangeExecutionAdapter
    → ExecutionReport
    → MockLiveExchangeExecutionAdapter × ReconciliationResult
apply_exchange_report a r = let (t, x) = apply_report a.tracker r in (record a { tracker = t }, x)
