-- ===== src/Config.antt =====
-- src/config/config_loader.cpp with the structures of include/config/app_config.hpp. The
-- environment is a parameter, a function from names to values, and so is the text of the file.
-- A load that throws is `none`.
pub mod Lines
pub mod Loading
pub mod Overrides
pub mod Validity
pub mod Parsed
pub mod Acceptance
use wall.Core.{Double, one}
use wall.Prelude.{
  Bool, List, Option, String, [], false, if◌then◌else◌, none, not, some, true, ◌&&◌, ◌||◌, ◌∷◌,
}
use wall.Prelude.Int.{leb_ℤ, ltb_ℤ, pos, ℤ}
use wall.Prelude.Text.{is_empty, same_text}
use wall.Risk.{RiskConfig}

pub record RedisConfig : Type 0 where
  pub host : String
  pub port : ℤ

pub record PostgresConfig : Type 0 where
  pub host : String
  pub port : ℤ
  pub database : String
  pub user : String
  pub password : String

pub record KafkaConfig : Type 0 where
  pub brokers : List String
  pub transaction_topic : String
  pub consumer_group : String

pub record StrategyConfig : Type 0 where
  pub strategy_id : String
  pub trigger_instrument_id : String
  pub trigger_price : Double
  pub order_quantity : Double
  pub side : String

pub record SimulationConfig : Type 0 where
  pub partial_fill_threshold : Double
  pub partial_fill_ratio : Double
  pub auto_complete_partial_fills : Bool

pub record AppConfig : Type 0 where
  pub mode : String
  pub exchange_name : String
  pub instruments : List String
  pub redis : RedisConfig
  pub postgres : PostgresConfig
  pub kafka : KafkaConfig
  pub risk : RiskConfig
  pub strategy : StrategyConfig
  pub simulation : SimulationConfig
  pub allow_fallback : Bool

-- `valid` with the error that is there when it is false.
pub record ConfigValidationResult : Type 0 where
  pub valid : Bool
  pub error : Option String

-- `empty()` of a vector
abbrev pub is_nil {ℓ} : {A : Type ℓ} → List A → Bool
is_nil [] = true
is_nil (_ ∷ _) = false

abbrev pub refused : String → ConfigValidationResult
refused e = record { valid = false; error = some e }

abbrev pub not_positive : ℤ → Bool
not_positive z = leb_ℤ z (pos 0)

abbrev pub accepted : ConfigValidationResult
accepted = record { valid = true; error = none }

unfoldable pub validate : AppConfig → ConfigValidationResult
validate c =
    if is_empty c.mode
    then refused "mode is required"
    else if is_empty c.redis.host
    then refused "redis.host is required"
    else if is_empty c.postgres.host || (is_empty c.postgres.database || is_empty c.postgres.user)
    then refused "postgres connection settings are required"
    else if is_nil c.kafka.brokers
        || (is_empty c.kafka.transaction_topic || is_empty c.kafka.consumer_group)
    then refused "kafka settings are required"
    else if not_positive c.risk.max_order_quantity
        || (not_positive c.risk.max_order_notional
            || (not_positive c.risk.max_position_quantity || not_positive c.risk.stale_after_ms))
    then refused "risk settings are required"
    else if is_empty c.strategy.strategy_id
        || (is_empty c.strategy.trigger_instrument_id
            || (not_positive c.strategy.trigger_price || not_positive c.strategy.order_quantity))
    then refused "strategy settings are required"
    else if not (same_text c.strategy.side "buy") && not (same_text c.strategy.side "sell")
    then refused "strategy.side must be buy or sell"
    else if not_positive c.simulation.partial_fill_threshold
        || (not_positive c.simulation.partial_fill_ratio
            || ltb_ℤ one c.simulation.partial_fill_ratio)
    then refused "simulation settings are required"
    else accepted
