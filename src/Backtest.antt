-- ===== src/Backtest.antt =====
-- src/app/backtest_runner.cpp: a log of events through the runtime, and the summary of what it came to.
pub mod Faithful
use wall.Core.{Double, Int64, Position}
use wall.Fields.Doubles.{DoubleText}
use wall.FileStore.{File}
use wall.MatchingEngine.SubmitLaws.{total}
use wall.Portfolio.{all_positions}
use wall.Prelude.{List, foldl, if◌then◌else◌, inc_u64, length, ℕ}
use wall.Prelude.Int.{pos, ◌+ℤ◌}
use wall.Replay.{ReplayStats, replay}
use wall.Runtime.{RuntimeSettings, RuntimeState, on_event}
use wall.Strategy.{
  StrategyInterface, StrategyRuntimeStats, active_strategy_count, add_u64, all_stats,
}

pub record BacktestSummary : Type 0 where
  pub replay_stats : ReplayStats
  pub risk_approved : ℕ
  pub risk_rejected : ℕ
  pub fills_applied : ℕ
  pub resulting_positions : ℕ
  pub configured_strategies : ℕ
  pub active_strategies : ℕ
  pub paused_strategies : ℕ
  pub strategy_failures : ℕ
  pub total_realized_pnl : Double
  pub total_unrealized_pnl : Double
  pub strategy_stats : List StrategyRuntimeStats

-- The loops over the positions and over the statistics.
unfoldable pub realized_total : Double → List Position → Double
realized_total = foldl (λ total p. total +ℤ p.realized_pnl)

unfoldable pub unrealized_total : Double → List Position → Double
unrealized_total = foldl (λ total p. total +ℤ p.unrealized_pnl)

unfoldable pub paused_count : ℕ → List StrategyRuntimeStats → ℕ
paused_count = foldl (λ n s. if s.paused then inc_u64 n else n)

unfoldable pub failure_count : ℕ → List StrategyRuntimeStats → ℕ
failure_count = foldl (λ n s. add_u64 n s.failures)

module _ {ℓ} {S : Type ℓ} where
  unfoldable pub summary_of : ReplayStats → RuntimeState S → BacktestSummary
  unfolding realized_total unrealized_total paused_count failure_count active_strategy_count
  summary_of stats t =
      let positions = all_positions t.portfolio_service in
      let strategies = all_stats t.strategies in
      record {
        replay_stats = stats;
        risk_approved = t.risk_approved_count;
        risk_rejected = t.risk_rejected_count;
        fills_applied = t.applied_fill_count;
        resulting_positions = length positions;
        configured_strategies = length t.strategies;
        active_strategies = active_strategy_count t.strategies;
        paused_strategies = paused_count 0 strategies;
        strategy_failures = failure_count 0 strategies;
        total_realized_pnl = realized_total (pos 0) positions;
        total_unrealized_pnl = unrealized_total (pos 0) positions;
        strategy_stats = strategies;
      }

  -- `on_event` of the replay is `runtime.on_event`.
  unfoldable pub run :
      DoubleText
      → RuntimeSettings
      → Int64
      → StrategyInterface S
      → File
      → RuntimeState S
      → RuntimeState S × BacktestSummary
  unfolding replay summary_of
  run N G now_ms I log t =
      let (stats, events) = replay N log in
      let after = foldl (on_event G now_ms I) t events in (after, summary_of stats after)
