-- ===== src/Runtime.antt =====
-- src/app/simulation_runtime.cpp and include/app/runtime_operational_controls.hpp: one event through the
-- market state, the strategies, the risk checks, the matching engine and the portfolio. A pointer to
-- a repository, a cache or the metrics, which may be null, is an `Option`. The clock stands still
-- while one event is handled, so that each latency is 0.
pub mod Safety
use wall.MatchingEngine.Submit
use wall.MatchingEngine.Lifecycle
use wall.Strategy
use mathlib.Core.Option
use wall.Core.{
  BalanceSnapshot, Double, EngineEvent, ExecutionResult, FillEvent, Int64, MarketEvent, OrderRecord,
  OrderRequest, OrderUpdate, Position, bare_instrument, market_event, timer_event,
  transaction_command,
}
use wall.Core.Arithmetic.{Arithmetic}
use wall.MarketData.{
  MarketState, MarketStateStore, apply, blank_state, front_price, restore_snapshot,
}
use wall.MatchingEngine.{MatchingEngine}
use wall.MatchingEngine.Sweep.{process_market_event}
use wall.Monitoring.Metrics.{MetricsCollector, increment, observe_latency}
use wall.Portfolio.{PortfolioService, all_balances, all_positions, apply_fill, set_mark_price}
use wall.Prelude.{
  Bool, List, Option, String, [], foldl, if◌then◌else◌, inc_u64, none, some, ℕ, ◌||◌, ◌∷◌,
}
use wall.Prelude.Dict.{Dict, contains}
use wall.Prelude.Int.{ltb_ℤ, pos}
use wall.Prelude.Text.{is_empty}
use wall.Risk.{RiskConfig, evaluate}
use wall.Storage.{
  MarketSnapshot, append_fill, save_balance, save_order, save_order_update, save_position,
  upsert_snapshot,
}
use wall.Strategy.{StrategyInterface, StrategySlot}

pub record RuntimeState {ℓ} (S : Type ℓ) : Type ℓ where
  pub market_state_store : MarketStateStore
  pub strategies : List (StrategySlot S)
  pub portfolio_service : PortfolioService
  pub execution_engine : MatchingEngine
  pub order_repository : Option (Dict OrderRecord)
  pub fill_repository : Option (List FillEvent)
  pub position_repository : Option (Dict Position)
  pub balance_repository : Option (Dict BalanceSnapshot)
  pub market_state_cache : Option (Dict MarketSnapshot)
  pub metrics : Option MetricsCollector
  pub risk_approved_count : ℕ
  pub risk_rejected_count : ℕ
  pub applied_fill_count : ℕ

abbrev pub counted_metric : String → Option MetricsCollector → Option MetricsCollector
counted_metric name = Option.map (λ m. increment m name (pos 1))

abbrev pub no_latency_seen : String → Option MetricsCollector → Option MetricsCollector
no_latency_seen name = Option.map (λ m. observe_latency m name (pos 0))

abbrev pub saved_updates : Dict OrderRecord → List OrderUpdate → Dict OrderRecord
saved_updates = foldl save_order_update

abbrev pub saved_positions : Dict Position → List Position → Dict Position
saved_positions = foldl save_position

abbrev pub saved_balances : Dict BalanceSnapshot → List BalanceSnapshot → Dict BalanceSnapshot
saved_balances = foldl save_balance

abbrev pub new_order_saved : OrderRequest → ExecutionResult → Dict OrderRecord → Dict OrderRecord
new_order_saved r result d =
    if is_empty result.order_id || contains result.order_id d
    then d
    else save_order d r result.order_id result.client_order_id

abbrev pub positive : Double → Option Double
positive a = if ltb_ℤ (pos 0) a then some a else none

abbrev pub event_snapshot : MarketEvent → MarketSnapshot
event_snapshot e = record {
  instrument_id = e.instrument.instrument_id;
  best_bid = front_price e.bid_levels e.bid_price;
  best_ask = front_price e.ask_levels e.ask_price;
  last_trade_price = positive e.price;
  last_trade_quantity = positive e.quantity;
  last_process_timestamp = e.process_timestamp;
}

abbrev pub restored_request : OrderRecord → OrderRequest
restored_request o = record {
  request_id = o.order_id;
  strategy_id = o.strategy_id;
  instrument = bare_instrument o.instrument_id;
  side = o.side;
  order_type = o.order_type;
  quantity = o.quantity;
  price = o.price;
}

abbrev pub restored_state : MarketSnapshot → MarketState
restored_state m = record blank_state {
  best_bid = m.best_bid;
  best_ask = m.best_ask;
  last_trade_price = m.last_trade_price;
  last_trade_quantity = m.last_trade_quantity;
  last_process_timestamp = m.last_process_timestamp;
}

abbrev pub marked_price : Arithmetic → String → Option Double → PortfolioService → PortfolioService
marked_price A i none p = p
marked_price A i (some price) p = set_mark_price A p i price

abbrev pub event_metric : EngineEvent → Option MetricsCollector → Option MetricsCollector
event_metric (market_event e) m = counted_metric "market_events" m
event_metric (timer_event e) m = m
event_metric (transaction_command c) m = counted_metric "transaction_events" m

module _ {ℓ} {S : Type ℓ} (A : Arithmetic) where
  -- The loop over the fills.
  abbrev pub after_fill : RuntimeState S → FillEvent → RuntimeState S
  after_fill t f = record t {
    fill_repository = Option.map (λ s. append_fill s f) t.fill_repository;
    portfolio_service = apply_fill A t.portfolio_service f;
    applied_fill_count = inc_u64 t.applied_fill_count;
    metrics = counted_metric "fills_applied" t.metrics;
  }

  unfoldable pub applied_fills : RuntimeState S → List FillEvent → RuntimeState S
  applied_fills t [] = t
  applied_fills t (f ∷ fs) = applied_fills (after_fill t f) fs

  unfoldable pub handle_execution_result : RuntimeState S → ExecutionResult → RuntimeState S
  unfolding applied_fills
  handle_execution_result t result =
      let saved = record t {
        order_repository = Option.map (λ d. saved_updates d result.updates) t.order_repository;
      } in
      let t' = applied_fills saved result.fills in
      record t' {
        position_repository =
            Option.map (λ d. saved_positions d (all_positions t'.portfolio_service))
              t'.position_repository;
        balance_repository =
            Option.map (λ d. saved_balances d (all_balances t'.portfolio_service))
              t'.balance_repository;
      }

module _ {ℓ} {S : Type ℓ} where
  unfoldable pub persist_new_order :
      RuntimeState S → OrderRequest → ExecutionResult → RuntimeState S
  persist_new_order t r result = record t {
    order_repository = Option.map (new_order_saved r result) t.order_repository;
  }

  unfoldable pub persist_market_snapshot : RuntimeState S → MarketEvent → RuntimeState S
  persist_market_snapshot t e = record t {
    market_state_cache =
        Option.map (λ d. upsert_snapshot d (event_snapshot e)) t.market_state_cache;
  }

  unfoldable pub restore_open_order : RuntimeState S → OrderRecord → RuntimeState S
  restore_open_order t o = record t {
    execution_engine =
        Lifecycle.restore_open_order t.execution_engine o.order_id o.client_order_id
          (restored_request o) o.filled_quantity;
  }

  unfoldable pub restore_market_snapshot :
      Arithmetic → RuntimeState S → MarketSnapshot → RuntimeState S
  restore_market_snapshot A t m = record t {
    market_state_store = restore_snapshot t.market_state_store m.instrument_id (restored_state m);
    portfolio_service = marked_price A m.instrument_id m.last_trade_price t.portfolio_service;
  }

-- What the runtime is built with, and whether the controls pause it.
pub record RuntimeSettings : Type 0 where
  pub arithmetic : Arithmetic
  pub risk_config : RiskConfig
  pub trading_paused : Bool

module _ {ℓ} {S : Type ℓ} (G : RuntimeSettings) (now_ms : Int64) where
  abbrev pub submitted : RuntimeState S → OrderRequest → RuntimeState S
  submitted t r =
      let (engine, result) = Submit.submit t.execution_engine r in
      handle_execution_result G.arithmetic
        (persist_new_order (record t { execution_engine = engine }) r result) result

  -- The body of the loop over the requests.
  unfoldable pub handle_request : RuntimeState S → OrderRequest → RuntimeState S
  handle_request t r =
      if G.trading_paused
      then record t {
        metrics =
            no_latency_seen "order_processing_latency_ms"
              (counted_metric "orders_paused" t.metrics);
      }
      else if (evaluate G.arithmetic G.risk_config t.market_state_store now_ms r).approved
      then (let t' =
            submitted
              (record t {
                risk_approved_count = inc_u64 t.risk_approved_count;
                metrics = counted_metric "orders_approved" t.metrics;
              })
              r in
          record t' { metrics = no_latency_seen "order_processing_latency_ms" t'.metrics })
      else record t {
        risk_rejected_count = inc_u64 t.risk_rejected_count;
        metrics =
            no_latency_seen "order_processing_latency_ms" (counted_metric "risk_rejects" t.metrics);
      }

  -- The first part of `on_event`: what a market event changes.
  unfoldable pub on_market_event : RuntimeState S → MarketEvent → RuntimeState S
  on_market_event t e =
      let seen =
        persist_market_snapshot (record t { market_state_store = apply t.market_state_store e })
          e in
      let (engine, result) = process_market_event seen.execution_engine e in
      let t' =
        handle_execution_result G.arithmetic (record seen { execution_engine = engine }) result in
      record t' {
        portfolio_service =
            if ltb_ℤ (pos 0) e.price
            then set_mark_price G.arithmetic t'.portfolio_service e.instrument.instrument_id e.price
            else t'.portfolio_service;
      }

  abbrev pub market_part : RuntimeState S → EngineEvent → RuntimeState S
  market_part t (market_event e) = on_market_event t e
  market_part t (timer_event e) = t
  market_part t (transaction_command c) = t

  -- The state before the loop over the requests, and the requests.
  abbrev pub before_requests : StrategyInterface S → RuntimeState S → EngineEvent → RuntimeState S
  before_requests I t e =
      let t1 = market_part t e in
      record t1 { strategies = (Strategy.on_event I e t1.market_state_store t1.strategies).0 }

  abbrev pub requests_of : StrategyInterface S → RuntimeState S → EngineEvent → List OrderRequest
  requests_of I t e =
      let t1 = market_part t e in (Strategy.on_event I e t1.market_state_store t1.strategies).1

  unfoldable pub on_event : StrategyInterface S → RuntimeState S → EngineEvent → RuntimeState S
  unfolding handle_request on_market_event
  on_event I t e =
      let t2 = foldl handle_request (before_requests I t e) (requests_of I t e) in
      record t2 { metrics = no_latency_seen "runtime_event_latency_ms" (event_metric e t2.metrics) }
