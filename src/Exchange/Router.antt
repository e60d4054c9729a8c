-- ===== src/Exchange/Router.antt =====
-- The routers of src/exchange/exchange_router.cpp: adapters under the names of exchanges.
use Prim.Native.String.{◌++◌ as ◌<>◌}
use mathlib.Core.Option
use wall.Core.{ExecutionResult, Instrument, Int64, OrderRequest, rejected}
use wall.Core.Arithmetic.{Arithmetic}
use wall.Exchange.{unknown}
use wall.Exchange.ExecutionAdapter.{
  ExchangeExecutionCapabilities, ExecutionAdapter, adapter_cancel, adapter_submit, capabilities,
  one_update,
}
use wall.Exchange.MarketAdapter.{Normalized, fails, normalize}
use wall.Fields.Doubles.{DoubleText}
use wall.Prelude.{List, Option, String, if◌then◌else◌, none, some}
use wall.Prelude.Dict.{Dict, insert, lookup}
use wall.Prelude.Sort.{keys, sort}
use wall.Prelude.Text.{is_empty}

-- `adapter != nullptr` and a name.
unfoldable pub register_adapter {ℓ} : {A : Type ℓ} → Dict A → String → Option A → Dict A
register_adapter d name none = d
register_adapter d name (some a) = if is_empty name then d else insert name a d

unfoldable pub registered_exchanges {ℓ} : {A : Type ℓ} → Dict A → List String
registered_exchanges d = sort (keys d)

abbrev pub normalized_by : DoubleText → String → Int64 → Int64 → Option Instrument → Normalized
normalized_by N payload received processed none =
    fails unknown "no market-data adapter registered for exchange"
normalized_by N payload received processed (some i) = normalize N i payload received processed

-- `ExchangeMarketDataRouter::normalize`; an adapter is the instrument that it is for.
unfoldable pub route_market_data :
    DoubleText → Dict Instrument → String → String → Int64 → Int64 → Normalized
unfolding normalize
route_market_data N d name payload received processed =
    normalized_by N payload received processed (lookup name d)

unfoldable pub missing_exchange_result : String → String → String → ExecutionResult
missing_exchange_result name client_id id =
    one_update id client_id rejected
      (some ("no execution adapter registered for exchange " <> name))

-- The adapter that was called stands in the router with its new state.
abbrev pub put_back :
    String
    → Dict ExecutionAdapter
    → ExecutionAdapter × ExecutionResult
    → Dict ExecutionAdapter × ExecutionResult
put_back name d (a, x) = (insert name a d, x)

-- `ExchangeExecutionRouter::submit`, `cancel` and `capabilities`
unfoldable pub route_submit :
    Arithmetic → Dict ExecutionAdapter → OrderRequest → Dict ExecutionAdapter × ExecutionResult
unfolding adapter_submit missing_exchange_result
route_submit A d r = elim (lookup r.instrument.exchange d) [
  | none ↦ (d, missing_exchange_result r.instrument.exchange "" r.request_id)
  | some a ↦ put_back r.instrument.exchange d (adapter_submit A a r)
]

unfoldable pub route_cancel :
    Dict ExecutionAdapter → String → String → String → Dict ExecutionAdapter × ExecutionResult
unfolding adapter_cancel missing_exchange_result
route_cancel d name id client_id = elim (lookup name d) [
  | none ↦ (d, missing_exchange_result name client_id id)
  | some a ↦ put_back name d (adapter_cancel a id client_id)
]

unfoldable pub route_capabilities :
    Dict ExecutionAdapter → String → Option ExchangeExecutionCapabilities
unfolding capabilities
route_capabilities d name = Option.map capabilities (lookup name d)
