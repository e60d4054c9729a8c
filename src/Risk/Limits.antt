-- ===== src/Risk/Limits.antt =====
-- When src/risk/risk_engine.cpp approves a request.
use wall.Core.{Double, Int64, OrderRequest}
use wall.Core.Arithmetic.{Arithmetic}
use wall.MarketData.{MarketStateStore, is_stale}
use wall.Prelude.{Option-cases, ap, arith, false, inl, inr, is_some, not, some, true, ◌↔◌, ◌≡◌}
use wall.Prelude.Int.{pos, ◌<ℤ◌, ◌≤ℤ◌}
use wall.Risk.{RiskConfig, evaluate, granted, resolve_reference_price}

-- Every limit that an approved request keeps.
abbrev pub WithinLimits : Arithmetic → RiskConfig → MarketStateStore → Int64 → OrderRequest → Type 0
WithinLimits A config d now_ms r =
    (config.kill_switch_enabled ≡ false)
    × (pos 0 <ℤ r.quantity)
    × (r.quantity ≤ℤ config.max_order_quantity)
    × (r.quantity ≤ℤ config.max_position_quantity)
    × (is_stale d now_ms r.instrument.instrument_id config.stale_after_ms ≡ false)
    × ((p : Double) × (resolve_reference_price d r ≡ some p)
        × (A.times r.quantity p ≤ℤ config.max_order_notional))

-- A decision without a reason is an approval, and a refusal has one.
decision_reason :
    (A : Arithmetic) (config : RiskConfig) (d : MarketStateStore) (now_ms : Int64)
    (r : OrderRequest)
    → is_some (evaluate A config d now_ms r).reason ≡ not (evaluate A config d now_ms r).approved
unfolding evaluate
decision_reason A config d now_ms r = ground arith

-- A request that keeps every limit is approved.
granted_within :
    (A : Arithmetic) (config : RiskConfig) (d : MarketStateStore) (now_ms : Int64)
    (r : OrderRequest)
    → WithinLimits A config d now_ms r
    → evaluate A config d now_ms r ≡ granted
unfolding evaluate
granted_within A config d now_ms r (k, q, o, l, s, (p, e, n)) = ground arith

-- An approved request keeps them all.
within_granted :
    (A : Arithmetic) (config : RiskConfig) (d : MarketStateStore) (now_ms : Int64)
    (r : OrderRequest)
    → (evaluate A config d now_ms r).approved ≡ true
    → WithinLimits A config d now_ms r
unfolding evaluate
within_granted A config d now_ms r h = elim (Option-cases (resolve_reference_price d r)) [
  | inl e ↦ absurd (ground arith)
  | inr (p, e) ↦
      (ground arith, ground arith, ground arith, ground arith, ground arith, (p, e, ground arith))
]

-- The risk engine approves a request exactly when the kill switch is off, the quantity is positive
-- and within the order's and the position's limit, the market data is fresh, and there is a reference price with
-- which the notional is within its limit; and a decision has a reason exactly when it is a refusal.
pub evaluate-WithinLimits :
    (A : Arithmetic) (config : RiskConfig) (d : MarketStateStore) (now_ms : Int64)
    (r : OrderRequest)
    → (((evaluate A config d now_ms r).approved ≡ true) ↔ WithinLimits A config d now_ms r)
      × (is_some (evaluate A config d now_ms r).reason
          ≡ not (evaluate A config d now_ms r).approved)
evaluate-WithinLimits A config d now_ms r = (
  (
    within_granted A config d now_ms r,
    λ w. ap (λ x. x.approved) (granted_within A config d now_ms r w),
  ),
  decision_reason A config d now_ms r,
)
