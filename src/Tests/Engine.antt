-- ===== src/Tests/Engine.antt =====
-- One event through src/app/simulation_runtime.cpp.
use wall.Core.{EngineEvent, ExecutionResult, buy, market_event}
use wall.MatchingEngine.{new_engine}
use wall.MatchingEngine.Books.{HasValidBooks, new_engine-HasValidBooks}
use wall.Portfolio.{new_portfolio}
use wall.Prelude.{Bool, [], false, none, refl, some, true, ◌∷◌}
use wall.Prelude.Int.{pos}
use wall.Runtime.{RuntimeSettings, RuntimeState, market_part, on_event}
use wall.Runtime.Safety.{IsUntouched, on_event-HasValidBooks, on_event-paused}
use wall.Samples.{btc, fill_of, quote_at, truncating, units}
use wall.Strategy.{add_strategy}
use wall.Strategy.Threshold.{ThresholdStrategy, new_threshold, threshold_interface}

abbrev buyer : ThresholdStrategy
buyer = new_threshold (record {
  strategy_id = "strategy-1";
  instrument_id = "BTC-USD";
  instrument = btc;
  trigger_price = units 96;
  order_quantity = units 1;
  side = buy;
})

abbrev pub idle_runtime : RuntimeState ThresholdStrategy
idle_runtime = record {
  market_state_store = [];
  strategies = add_strategy threshold_interface [] buyer;
  portfolio_service = new_portfolio;
  execution_engine = new_engine;
  order_repository = some [];
  fill_repository = none;
  position_repository = some [];
  balance_repository = none;
  market_state_cache = none;
  metrics = none;
  risk_approved_count = 0;
  risk_rejected_count = 0;
  applied_fill_count = 0;
}

abbrev pub settings : Bool → RuntimeSettings
settings paused = record {
  arithmetic = truncating;
  risk_config = record {
    max_order_quantity = units 10;
    max_order_notional = units 1000;
    max_position_quantity = units 20;
    stale_after_ms = pos 100;
    kill_switch_enabled = false;
  };
  trading_paused = paused;
}

abbrev quoted : EngineEvent
quoted = market_event (quote_at 3 95)

on_event-HasValidBooks_example :
    HasValidBooks
      (on_event
        (settings false)
        (pos 1050)
        threshold_interface
        idle_runtime
        quoted).execution_engine
on_event-HasValidBooks_example =
    on_event-HasValidBooks (settings false) (pos 1050) threshold_interface idle_runtime quoted
      new_engine-HasValidBooks

on_event-paused_example :
    IsUntouched
      (settings true)
      (pos 1050)
      (market_part (settings true) (pos 1050) idle_runtime quoted)
      (on_event (settings true) (pos 1050) threshold_interface idle_runtime quoted)
on_event-paused_example =
    on_event-paused (settings true) (pos 1050) threshold_interface idle_runtime quoted refl

abbrev one_fill : ExecutionResult
one_fill = record {
  order_id = "order-1";
  client_order_id = "client-1";
  updates = [];
  fills = fill_of buy 5 100 ∷ [];
}
