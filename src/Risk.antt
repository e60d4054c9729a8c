-- ===== src/Risk.antt =====
-- src/risk/risk_engine.cpp: the checks that an order request passes before it is sent. The clock's time
-- is an argument, which the market data's age is taken from.
pub mod Limits
use wall.Core.{Double, Int64, OrderRequest}
use wall.Core.Arithmetic.{Arithmetic}
use wall.MarketData.{MarketStateStore, get, is_stale}
use wall.Prelude.{Bool, Option, String, false, if◌then◌else◌, none, some, true}
use wall.Prelude.Int.{leb_ℤ, ltb_ℤ, pos}

-- `RiskConfig` of include/config/app_config.hpp
pub record RiskConfig : Type 0 where
  pub max_order_quantity : Double
  pub max_order_notional : Double
  pub max_position_quantity : Double
  pub stale_after_ms : Int64
  pub kill_switch_enabled : Bool

pub record RiskDecision : Type 0 where
  pub approved : Bool
  pub reason : Option String

abbrev pub denied : String → RiskDecision
denied why = record { approved = false; reason = some why }

abbrev pub granted : RiskDecision
granted = record { approved = true; reason = none }

unfoldable pub resolve_reference_price : MarketStateStore → OrderRequest → Option Double
unfolding get
resolve_reference_price d r = elim r.price [
  | some p ↦ some p
  | none ↦ elim (get d r.instrument.instrument_id) [ none ↦ none | some s ↦ s.last_trade_price ]
]

-- The last check of `evaluate`, once there is a reference price or none.
abbrev pub check_notional : Arithmetic → RiskConfig → OrderRequest → Option Double → RiskDecision
check_notional A config r none = denied "reference price unavailable"
check_notional A config r (some reference_price) =
    if ltb_ℤ config.max_order_notional (A.times r.quantity reference_price)
    then denied "order notional exceeds limit"
    else granted

unfoldable pub evaluate :
    Arithmetic → RiskConfig → MarketStateStore → Int64 → OrderRequest → RiskDecision
unfolding resolve_reference_price is_stale
evaluate A config d now_ms r =
    if config.kill_switch_enabled
    then denied "kill switch enabled"
    else if leb_ℤ r.quantity (pos 0)
    then denied "quantity must be positive"
    else if ltb_ℤ config.max_order_quantity r.quantity
    then denied "order quantity exceeds limit"
    else if ltb_ℤ config.max_position_quantity r.quantity
    then denied "position quantity exceeds limit"
    else if is_stale d now_ms r.instrument.instrument_id config.stale_after_ms
    then denied "market data is stale"
    else check_notional A config r (resolve_reference_price d r)
