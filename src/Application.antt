-- ===== src/Application.antt =====
-- src/app/application.cpp: the handlers of events in the order of their subscription, a cycle of the
-- controller over them, and what is stored after it.
pub mod Startup
pub mod Journal
use Prim.Native.String.{◌++◌ as ◌<>◌}
use wall.Config.{AppConfig}
use wall.Controller.{EngineController, Handler, run_once}
use wall.Core.{
  BalanceSnapshot, Double, EngineEvent, Instrument, Int64, MarketEvent, OrderRequest, OrderSide,
  Position, TransactionCommand, market_event, timer_event, transaction_command,
}
use wall.Core.Arithmetic.{Arithmetic}
use wall.Fields.Doubles.{DoubleText}
use wall.FileStore.{File, Table}
use wall.FileStore.Accounts.{save_balance, save_position}
use wall.MarketData.{MarketStateStore}
use wall.Monitoring.{
  HealthStatus, RuntimeHealthStatus, degraded, execution, healthy, ingestion, market_data, risk,
  set_status,
}
use wall.MatchingEngine.{new_engine}
use wall.Monitoring.Metrics.{MetricsCollector}
use wall.Monitoring.Logger.{LogRecord, info, log_to_console}
use wall.Portfolio.{all_balances, all_positions, new_portfolio}
use wall.Prelude.{
  List, Option, String, [], foldl, if◌then◌else◌, leb, ltb, none, some, ℕ, ◌*◌, ◌^◌, ◌∷◌,
}
use wall.Prelude.Int.{ltb_ℤ, pos}
use wall.Prelude.Text.{same_text, text_behind, text_length, text_start}
use wall.Replay.{append_event}
use wall.Runtime.{RuntimeSettings, RuntimeState, on_event}
use wall.Storage.{MarketSnapshot}
use wall.Strategy.{StrategyInterface, StrategySlot, add_strategy}
use wall.Strategy.SpreadCapture.{SpreadConfig, SpreadStrategy, new_spread, spread_interface}
use wall.Strategy.Threshold.{ThresholdConfig, ThresholdStrategy, new_threshold, threshold_interface}

-- What the handlers change.
pub record ApplicationState {ℓ} (S : Type ℓ) : Type ℓ where
  pub runtime : RuntimeState S
  pub health_status : RuntimeHealthStatus
  pub event_log : File
  pub output : String

abbrev pub seen_event : EngineEvent → RuntimeHealthStatus → RuntimeHealthStatus
seen_event (market_event e) h = set_status h market_data healthy
seen_event (transaction_command c) h = set_status h ingestion healthy
seen_event (timer_event t) h = h

abbrev pub event_record : EngineEvent → LogRecord
event_record (market_event e) = record {
  level = info;
  message = "processed_market_event";
  fields = ("event_id", e.event_id) ∷ ("instrument_id", e.instrument.instrument_id) ∷ [];
}
event_record (transaction_command c) = record {
  level = info;
  message = "processed_transaction_command";
  fields = ("transaction_id", c.transaction_id) ∷ ("command_type", c.command_type) ∷ [];
}
event_record (timer_event t) = record {
  level = info;
  message = "processed_timer";
  fields = ("timer_id", t.timer_id) ∷ [];
}

module _ {ℓ} {S : Type ℓ} where
  -- The counts of the runtime before and after an event.
  abbrev pub seen_risk : RuntimeState S → RuntimeState S → RuntimeHealthStatus → RuntimeHealthStatus
  seen_risk before after h =
      if ltb before.risk_rejected_count after.risk_rejected_count
      then set_status h risk degraded
      else if ltb before.risk_approved_count after.risk_approved_count
      then set_status h risk healthy
      else h

  abbrev pub seen_fills :
      RuntimeState S → RuntimeState S → RuntimeHealthStatus → RuntimeHealthStatus
  seen_fills before after h =
      if ltb before.applied_fill_count after.applied_fill_count
      then set_status h execution healthy
      else h

  unfoldable pub runtime_handler :
      RuntimeSettings → Int64 → StrategyInterface S → Handler (ApplicationState S)
  unfolding set_status
  runtime_handler G now_ms I e a =
      let after = on_event G now_ms I a.runtime e in
      (
        record a {
          runtime = after;
          health_status =
              seen_fills a.runtime after (seen_risk a.runtime after (seen_event e a.health_status));
        },
        [],
      )

  unfoldable pub log_handler : DoubleText → Handler (ApplicationState S)
  log_handler N e a = (record a { event_log = append_event N a.event_log e }, [])

  unfoldable pub logger_handler : Handler (ApplicationState S)
  unfolding log_to_console
  logger_handler e a = (record a { output = log_to_console (event_record e) a.output }, [])

  abbrev pub handlers :
      DoubleText
      → RuntimeSettings
      → Int64
      → StrategyInterface S
      → List (Handler (ApplicationState S))
  handlers N G now_ms I = runtime_handler G now_ms I ∷ log_handler N ∷ logger_handler ∷ []

  -- `controller.run_once()`, with a number of rounds for its drain.
  unfoldable pub run_cycle :
      DoubleText
      → RuntimeSettings
      → Int64
      → StrategyInterface S
      → ℕ
      → EngineController
      → ApplicationState S
      → EngineController × ApplicationState S × ℕ
  unfolding runtime_handler log_handler logger_handler run_once
  run_cycle N G now_ms I fuel c a = run_once fuel (handlers N G now_ms I) c now_ms a

  -- The loops that store the portfolio after the cycle.
  unfoldable pub store_positions : DoubleText → RuntimeState S → Table Position → Table Position
  unfolding save_position
  store_positions N t repository =
      foldl (save_position N) repository (all_positions t.portfolio_service)

  unfoldable pub store_balances :
      DoubleText → RuntimeState S → Table BalanceSnapshot → Table BalanceSnapshot
  unfolding save_balance
  store_balances N t repository =
      foldl (save_balance N) repository (all_balances t.portfolio_service)
