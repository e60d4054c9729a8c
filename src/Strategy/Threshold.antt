-- ===== src/Strategy/Threshold.antt =====
-- src/strategy/sample_threshold_strategy.cpp: one limit order when a trade price crosses a threshold.
pub mod Signal
use Prim.Native.String.{◌++◌ as ◌<>◌}
use wall.Core.{
  Double, EngineEvent, Instrument, OrderRequest, OrderSide, OrderType, market_event, timer_event,
  transaction_command,
}
use wall.MarketData.{MarketStateStore, get}
use wall.Prelude.{
  Bool, List, String, [], false, if◌then◌else◌, inc_u64, is_some, ite, not, some, true, ℕ, ◌&&◌,
  ◌||◌, ◌∷◌,
}
use wall.Prelude.Int.{leb_ℤ, pos}
use wall.Prelude.Text.{dec_str, is_empty, to_string}
use wall.Strategy.{StrategyInterface, on_event}

-- `SampleThresholdStrategyConfig`
pub record ThresholdConfig : Type 0 where
  pub strategy_id : String
  pub instrument_id : String
  pub instrument : Instrument
  pub trigger_price : Double
  pub order_quantity : Double
  pub side : OrderSide

pub record ThresholdStrategy : Type 0 where
  pub config : ThresholdConfig
  pub has_emitted_signal : Bool
  pub next_request_id : ℕ

unfoldable pub new_threshold : ThresholdConfig → ThresholdStrategy
new_threshold c = record { config = c; has_emitted_signal = false; next_request_id = 1 }

unfoldable pub should_emit_for_trade_price : ThresholdStrategy → Double → Bool
should_emit_for_trade_price s trade_price =
    if s.has_emitted_signal then false else elim s.config.side [
      | OrderSide.buy ↦ leb_ℤ trade_price s.config.trigger_price
      | OrderSide.sell ↦ leb_ℤ s.config.trigger_price trade_price
    ]

abbrev pub resolved_instrument : ThresholdConfig → Instrument → Instrument
resolved_instrument c i =
    if is_empty c.instrument.instrument_id
      || (is_empty c.instrument.base_asset && is_empty c.instrument.quote_asset)
    then i
    else c.instrument

-- `build_order_request`, whose counter `on_event` puts back with the signal.
abbrev pub threshold_request : ThresholdStrategy → Instrument → Double → OrderRequest
threshold_request s i trade_price = record {
  request_id = s.config.strategy_id <> "-request-" <> to_string s.next_request_id;
  strategy_id = s.config.strategy_id;
  instrument = resolved_instrument s.config i;
  side = s.config.side;
  order_type = OrderType.limit;
  quantity = s.config.order_quantity;
  price = some trade_price;
}

abbrev pub signalled : ThresholdStrategy → ThresholdStrategy
signalled s = record s { has_emitted_signal = true; next_request_id = inc_u64 s.next_request_id }

unfoldable pub threshold_on_event :
    ThresholdStrategy → EngineEvent → MarketStateStore → ThresholdStrategy × List OrderRequest
unfolding should_emit_for_trade_price get
threshold_on_event s (market_event e) d =
    ite (dec_str e.instrument.instrument_id s.config.instrument_id)
      (if leb_ℤ e.price (pos 0) || not (is_some (get d s.config.instrument_id))
        then (s, [])
        else if should_emit_for_trade_price s e.price
        then (signalled s, threshold_request s e.instrument e.price ∷ [])
        else (s, []))
      (s, [])
threshold_on_event s (timer_event t) d = (s, [])
threshold_on_event s (transaction_command c) d =
    ite (dec_str c.command_type "reset_strategy") (record s { has_emitted_signal = false }, [])
      (s, [])

-- The strategy behind `IStrategy`: it never throws.
abbrev pub threshold_interface : StrategyInterface ThresholdStrategy
threshold_interface = record {
  id_of = λ s. s.config.strategy_id;
  on_event = λ s e d. let (s', requests) = threshold_on_event s e d in (s', some requests);
}
