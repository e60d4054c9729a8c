-- ===== src/Application/Startup.antt =====
-- src/app/application.cpp: the instrument, the strategies and the runtime that a configuration asks for, and
-- what the mock sources start with. The first functions stand in src/tools/backtest_main.cpp too.
use Prim.Native.String.{◌++◌ as ◌<>◌}
use wall.Config.{AppConfig}
use wall.Core.{
  Double, EngineEvent, Instrument, MarketEvent, OrderRequest, OrderSide, TransactionCommand,
}
use wall.Core.Arithmetic.{Arithmetic}
use wall.MarketData.{MarketStateStore}
use wall.MatchingEngine.{new_engine}
use wall.Monitoring.Metrics.{MetricsCollector}
use wall.Portfolio.{new_portfolio}
use wall.Prelude.{List, Option, String, [], if◌then◌else◌, leb, ltb, none, some, ◌*◌, ◌^◌, ◌∷◌}
use wall.Prelude.Int.{ltb_ℤ, pos}
use wall.Prelude.Text.{same_text, text_behind, text_length, text_start}
use wall.Runtime.{RuntimeState}
use wall.Storage.{MarketSnapshot}
use wall.Strategy.{StrategyInterface, StrategySlot, add_strategy}
use wall.Strategy.SpreadCapture.{SpreadConfig, SpreadStrategy, new_spread, spread_interface}
use wall.Strategy.Threshold.{ThresholdConfig, ThresholdStrategy, new_threshold, threshold_interface}

unfoldable pub parse_order_side : String → OrderSide
parse_order_side side = if same_text side "sell" then OrderSide.sell else OrderSide.buy

unfoldable pub build_instrument : String → String → Instrument
unfolding text_length text_start text_behind
build_instrument exchange symbol = record {
  instrument_id = exchange <> ":" <> symbol;
  exchange = exchange;
  symbol = symbol;
  base_asset = if leb 3 (text_length symbol) then text_start 3 symbol else symbol;
  quote_asset = if ltb 3 (text_length symbol) then text_behind 3 symbol else "USD";
  tick_size = pos (10 ^ 11);
  lot_size = pos (10 ^ 8);
}

abbrev pub primary_symbol : List String → String
primary_symbol [] = "BTCUSDT"
primary_symbol (s ∷ _) = s

-- A pointer to an `IStrategy`.
pub data AnyStrategy : Type 0 where
  threshold_strategy : ThresholdStrategy → AnyStrategy
  spread_strategy : SpreadStrategy → AnyStrategy

abbrev pub any_id : AnyStrategy → String
any_id (threshold_strategy s) = threshold_interface.id_of s
any_id (spread_strategy s) = spread_interface.id_of s

abbrev pub any_on_event :
    AnyStrategy → EngineEvent → MarketStateStore → AnyStrategy × Option (List OrderRequest)
any_on_event (threshold_strategy s) e d =
    let (s', requests) = threshold_interface.on_event s e d in (threshold_strategy s', requests)
any_on_event (spread_strategy s) e d =
    let (s', requests) = spread_interface.on_event s e d in (spread_strategy s', requests)

abbrev pub any_interface : StrategyInterface AnyStrategy
any_interface = record { id_of = any_id; on_event = any_on_event }

abbrev pub threshold_config : AppConfig → Instrument → ThresholdConfig
threshold_config c i = record {
  strategy_id = c.strategy.strategy_id;
  instrument_id = i.instrument_id;
  instrument = i;
  trigger_price = c.strategy.trigger_price;
  order_quantity = c.strategy.order_quantity;
  side = parse_order_side c.strategy.side;
}

abbrev pub spread_config : Arithmetic → AppConfig → Instrument → SpreadConfig
spread_config A c i = record {
  strategy_id = c.strategy.strategy_id <> "-spread";
  instrument = i;
  min_spread = A.times i.tick_size (pos (5 * 10 ^ 12));
  order_quantity = A.times c.strategy.order_quantity (pos (5 * 10 ^ 11));
  side = parse_order_side c.strategy.side;
}

unfoldable pub build_strategy_coordinator : Arithmetic → AppConfig → List (StrategySlot AnyStrategy)
unfolding parse_order_side build_instrument new_threshold new_spread add_strategy
build_strategy_coordinator A c =
    let i = build_instrument c.exchange_name (primary_symbol c.instruments) in
    add_strategy any_interface
      (add_strategy any_interface [] (threshold_strategy (new_threshold (threshold_config c i))))
      (spread_strategy (new_spread (spread_config A c i)))

-- The constructor of `SimulationRuntime`, without repositories: it discards the settings of the execution,
-- and makes a threshold strategy when it is given no coordinator.
abbrev pub coordinator_or :
    Option (List (StrategySlot AnyStrategy)) → ThresholdConfig → List (StrategySlot AnyStrategy)
coordinator_or none config =
    add_strategy any_interface [] (threshold_strategy (new_threshold config))
coordinator_or (some slots) config = slots

unfoldable pub new_runtime :
    Option (List (StrategySlot AnyStrategy))
    → ThresholdConfig
    → Option MetricsCollector
    → RuntimeState AnyStrategy
unfolding add_strategy new_threshold new_portfolio new_engine
new_runtime coordinator config metrics = record {
  market_state_store = [];
  strategies = coordinator_or coordinator config;
  portfolio_service = new_portfolio;
  execution_engine = new_engine;
  order_repository = none;
  fill_repository = none;
  position_repository = none;
  balance_repository = none;
  market_state_cache = none;
  metrics = metrics;
  risk_approved_count = 0;
  risk_rejected_count = 0;
  applied_fill_count = 0;
}

-- The instrument and the transaction of the mock sources.
abbrev pub startup_instrument : String → String → Instrument
startup_instrument exchange symbol = record {
  instrument_id = "mock:" <> exchange <> ":" <> symbol;
  exchange = exchange;
  symbol = symbol;
  base_asset = "BTC";
  quote_asset = "USDT";
  tick_size = pos (10 ^ 11);
  lot_size = pos (10 ^ 8);
}

abbrev pub startup_command : String → String → TransactionCommand
startup_command symbol topic = record {
  transaction_id = "mock-tx-1";
  user_id = "dev-user";
  account_id = "paper-account";
  command_type = "place_order";
  instrument_symbol = symbol;
  quantity = pos (10 ^ 11);
  price = some (pos (42000 * 10 ^ 12));
  kafka_topic = topic;
  kafka_partition = pos 0;
  kafka_offset = pos 0;
}

abbrev pub if_positive : Double → Option Double
if_positive x = if ltb_ℤ (pos 0) x then some x else none

unfoldable pub startup_snapshot : MarketEvent → MarketSnapshot
startup_snapshot e = record {
  instrument_id = e.instrument.instrument_id;
  best_bid = e.bid_price;
  best_ask = e.ask_price;
  last_trade_price = if_positive e.price;
  last_trade_quantity = if_positive e.quantity;
  last_process_timestamp = e.process_timestamp;
}
