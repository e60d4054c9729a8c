-- ===== src/Strategy/Threshold/Signal.antt =====
-- The signals of src/strategy/sample_threshold_strategy.cpp over a stream of events.
use wall.Core.{EngineEvent, OrderRequest, market_event, timer_event, transaction_command}
use wall.MarketData.{MarketStateStore}
use wall.Prelude.{
  Bool, List, [], arith, false, if◌then◌else◌, ite, length, length-append, true, ℕ, ◌++◌, ◌+◌, ◌||◌,
  ◌∷◌, ◌≡◌, ◌≤◌,
}
use wall.Prelude.Text.{dec_str}
use wall.Strategy.Threshold.{ThresholdStrategy, should_emit_for_trade_price, threshold_on_event}

-- Events, each with the market state that the strategy sees.
abbrev pub run :
    ThresholdStrategy
    → List (EngineEvent × MarketStateStore)
    → ThresholdStrategy × List OrderRequest
run s [] = (s, [])
run s ((e, d) ∷ es) =
    let (s', requests) = threshold_on_event s e d in
    let (s'', more) = run s' es in (s'', requests ++ more)

abbrev pub is_reset : EngineEvent → Bool
is_reset (transaction_command c) = ite (dec_str c.command_type "reset_strategy") true false
is_reset e = false

abbrev pub has_reset : List (EngineEvent × MarketStateStore) → Bool
has_reset [] = false
has_reset ((e, d) ∷ es) = is_reset e || has_reset es

-- The signals that the strategy may still give.
abbrev signals_left : ThresholdStrategy → ℕ
signals_left s = if s.has_emitted_signal then 0 else 1

step-signals_left :
    (s : ThresholdStrategy) (e : EngineEvent) (d : MarketStateStore)
    → is_reset e ≡ false
    → length (threshold_on_event s e d).1 + signals_left (threshold_on_event s e d).0
      ≤ signals_left s
unfolding threshold_on_event should_emit_for_trade_price
step-signals_left s (market_event e) d h = ground arith
step-signals_left s (timer_event t) d h = ground arith
step-signals_left s (transaction_command c) d h = ground arith

run-signals_left :
    (s : ThresholdStrategy) (es : List (EngineEvent × MarketStateStore))
    → has_reset es ≡ false
    → length (run s es).1 + signals_left (run s es).0 ≤ signals_left s
run-signals_left s [] h = omega arith
run-signals_left s ((e, d) ∷ es) h =
    let first = threshold_on_event s e d in
    omega (
      arith,
      length-append first.1 (run first.0 es).1,
      step-signals_left s e d (ground arith),
      run-signals_left first.0 es (ground arith),
    )

-- Between two resets the strategy sends one order at most, however often the price crosses its threshold.
pub run-one_signal :
    (s : ThresholdStrategy) (es : List (EngineEvent × MarketStateStore))
    → has_reset es ≡ false
    → length (run s es).1 ≤ 1
run-one_signal s es h = ground (arith, run-signals_left s es h)
