-- ===== src/Config/Loading.antt =====
-- `load_from_file` of src/config/config_loader.cpp: the overrides of the environment and the typed
-- values.
use Prim.Native.String.{◌++◌ as ◌<>◌}
use wall.Config.{AppConfig}
use wall.Config.Lines.{read_config_lines, split_csv}
use wall.Core.{Double}
use wall.Fields.{lines_of, ◌>>=◌}
use wall.Fields.Doubles.{DoubleText}
use wall.Fields.Integers.{int32_bound, int64_bound, read_integer}
use wall.Prelude.{Bool, List, Option, String, [], if◌then◌else◌, none, some, value_or, ◌||◌, ◌∷◌}
use wall.Prelude.Dict.{Dict, insert, lookup}
use wall.Prelude.Int.{pos, ℤ}
use wall.Prelude.Text.{is_empty, same_text, translate}

abbrev pub known_keys : List String
known_keys =
    "mode" ∷ "exchange.name" ∷ "instruments" ∷ "infrastructure.allow_fallback" ∷ "redis.host"
    ∷ "redis.port" ∷ "postgres.host" ∷ "postgres.port" ∷ "postgres.database" ∷ "postgres.user"
    ∷ "postgres.password" ∷ "kafka.brokers" ∷ "kafka.transaction_topic" ∷ "kafka.consumer_group"
    ∷ "risk.max_order_quantity" ∷ "risk.max_order_notional" ∷ "risk.max_position_quantity"
    ∷ "risk.stale_after_ms" ∷ "risk.kill_switch_enabled" ∷ "strategy.id"
    ∷ "strategy.trigger_instrument_id" ∷ "strategy.trigger_price" ∷ "strategy.order_quantity"
    ∷ "strategy.side" ∷ "simulation.partial_fill_threshold" ∷ "simulation.partial_fill_ratio"
    ∷ "simulation.auto_complete_partial_fills" ∷ []

-- `std::toupper` with the dot as an underscore.
unfoldable pub env_characters : String → String
unfolding translate
env_characters String.[] = ""
env_characters (String.◌∷◌ c s) =
    String.◌∷◌ (translate "abcdefghijklmnopqrstuvwxyz." "ABCDEFGHIJKLMNOPQRSTUVWXYZ_" c)
      (env_characters s)

unfoldable pub env_name_for_key : String → String
unfolding env_characters
env_name_for_key key = "TRADING_" <> env_characters key

abbrev pub override_key : String → Option String → Dict String → Dict String
override_key key none d = d
override_key key (some v) d = insert key v d

unfoldable pub apply_overrides : (String → Option String) → List String → Dict String → Dict String
unfolding env_name_for_key
apply_overrides getenv [] d = d
apply_overrides getenv (k ∷ ks) d =
    apply_overrides getenv ks (override_key k (getenv (env_name_for_key k)) d)

-- The second step of `load_from_file`, with the two older names.
unfoldable pub overridden : (String → Option String) → Dict String → Dict String
unfolding apply_overrides
overridden getenv d =
    override_key "risk.kill_switch_enabled" (getenv "TRADING_KILL_SWITCH_ENABLED") (
      override_key "kafka.transaction_topic" (getenv "TRADING_KAFKA_TOPIC")
        (apply_overrides getenv known_keys d))

unfoldable pub get_string : Dict String → String → String
get_string d key = value_or (lookup key d) ""

-- The number, if its text was consumed.
abbrev pub whole {ℓ} : {T : Type ℓ} → Option (T × String) → Option T
whole none = none
whole (some (n, rest)) = if is_empty rest then some n else none

unfoldable pub parse_number {ℓ} :
    {T : Type ℓ} → Dict String → String → T → (String → Option (T × String)) → Option T
unfolding get_string
parse_number d key default parser =
    if is_empty (get_string d key) then some default else whole (parser (get_string d key))

abbrev pub get_int : Dict String → String → ℤ → Option ℤ
get_int d key default = parse_number d key default (read_integer int32_bound)

abbrev pub get_int64 : Dict String → String → ℤ → Option ℤ
get_int64 d key default = parse_number d key default (read_integer int64_bound)

abbrev pub get_double : DoubleText → Dict String → String → Double → Option Double
get_double N d key default = parse_number d key default N.read_double

unfoldable pub parse_bool : String → Bool
parse_bool s =
    same_text s "1"
    || (same_text s "true" || (same_text s "TRUE" || (same_text s "yes" || same_text s "on")))

-- The structure with the values that are texts, and the numbers that were parsed.
abbrev pub config_with : Dict String → ℤ → ℤ → ℤ → ℤ → ℤ → ℤ → ℤ → ℤ → ℤ → ℤ → AppConfig
config_with d redis_port postgres_port max_quantity max_notional max_position stale price quantity
      threshold ratio =
    record {
      mode = get_string d "mode";
      exchange_name = get_string d "exchange.name";
      instruments = split_csv (get_string d "instruments");
      redis = record { host = get_string d "redis.host"; port = redis_port };
      postgres = record {
        host = get_string d "postgres.host";
        port = postgres_port;
        database = get_string d "postgres.database";
        user = get_string d "postgres.user";
        password = get_string d "postgres.password";
      };
      kafka = record {
        brokers = split_csv (get_string d "kafka.brokers");
        transaction_topic = get_string d "kafka.transaction_topic";
        consumer_group = get_string d "kafka.consumer_group";
      };
      risk = record {
        max_order_quantity = max_quantity;
        max_order_notional = max_notional;
        max_position_quantity = max_position;
        stale_after_ms = stale;
        kill_switch_enabled = parse_bool (get_string d "risk.kill_switch_enabled");
      };
      strategy = record {
        strategy_id = get_string d "strategy.id";
        trigger_instrument_id = get_string d "strategy.trigger_instrument_id";
        trigger_price = price;
        order_quantity = quantity;
        side = get_string d "strategy.side";
      };
      simulation = record {
        partial_fill_threshold = threshold;
        partial_fill_ratio = ratio;
        auto_complete_partial_fills =
            parse_bool (get_string d "simulation.auto_complete_partial_fills");
      };
      allow_fallback = parse_bool (get_string d "infrastructure.allow_fallback");
    }

-- The third step of `load_from_file`.
unfoldable pub config_of : DoubleText → Dict String → Option AppConfig
unfolding get_string parse_number parse_bool split_csv
config_of N d = do
  redis_port ← get_int d "redis.port" (pos 6379)
  postgres_port ← get_int d "postgres.port" (pos 5432)
  max_quantity ← get_double N d "risk.max_order_quantity" (pos 0)
  max_notional ← get_double N d "risk.max_order_notional" (pos 0)
  max_position ← get_double N d "risk.max_position_quantity" (pos 0)
  stale ← get_int64 d "risk.stale_after_ms" (pos 0)
  price ← get_double N d "strategy.trigger_price" (pos 0)
  quantity ← get_double N d "strategy.order_quantity" (pos 0)
  threshold ← get_double N d "simulation.partial_fill_threshold" (pos 0)
  ratio ← get_double N d "simulation.partial_fill_ratio" (pos 0)
  some (
      config_with d redis_port postgres_port max_quantity max_notional max_position stale price
        quantity threshold ratio)

-- The steps in their order; a file that cannot be opened throws.
unfoldable pub load_from_file :
    DoubleText → (String → Option String) → Option String → Option AppConfig
unfolding read_config_lines overridden config_of lines_of
load_from_file N getenv none = none
load_from_file N getenv (some text) = do
  d ← read_config_lines (lines_of text) []
  config_of N (overridden getenv d)
