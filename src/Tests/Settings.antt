-- ===== src/Tests/Settings.antt =====
-- A configuration of src/config/config_loader.cpp.
use wall.Config.{AppConfig, validate}
use wall.Config.Acceptance.{IsAcceptable, load_from_file-IsAcceptable}
use wall.Config.Lines.{read_config_lines}
use wall.Config.Loading.{known_keys, load_from_file, overridden}
use wall.Config.Overrides.{by_older_variable, by_variable, first_of, lookup-overridden}
use wall.Fields.{lines_of}
use wall.Fields.Integers.{read_integer}
use wall.Prelude.{Option, String, refl, [], false, ite, none, some, true, ◌∷◌, ◌≡◌}
use wall.Prelude.Dict.{Dict, insert, lookup}
use wall.Prelude.Int.{pos}
use wall.Prelude.Text.{dec_str}
use wall.Tests.Numbers.{scientific_text}

-- One variable is set.
abbrev environment : String → Option String
environment name = ite (dec_str name "TRADING_MODE") (some "live") none

abbrev read_values : Dict String
read_values = ("mode", "simulation") ∷ []

lookup-overridden_example :
    lookup "mode" (overridden environment read_values)
    ≡ first_of
        (by_older_variable environment "mode")
        (first_of (by_variable environment known_keys "mode") (lookup "mode" read_values))
lookup-overridden_example = lookup-overridden environment read_values "mode"

-- The mode comes from the environment, all else from the file.
abbrev settings_text : String
settings_text =
    "# connections\nredis.host = localhost\npostgres.host=localhost\npostgres.database=trading\npostgres.user=trader\nkafka.brokers=localhost:9092\nkafka.transaction_topic=transactions\nkafka.consumer_group=engine\nrisk.max_order_quantity=5e-12\nrisk.max_order_notional=9e-12\nrisk.max_position_quantity=8e-12\nrisk.stale_after_ms=1000\nstrategy.id=threshold\nstrategy.trigger_instrument_id=BTC-USD\nstrategy.trigger_price=7e-12\nstrategy.order_quantity=1e-12\nstrategy.side=buy\nsimulation.partial_fill_threshold=2e-12\nsimulation.partial_fill_ratio=1e-12\n"

abbrev settings : AppConfig
settings = record {
  mode = "live";
  exchange_name = "";
  instruments = [];
  redis = record { host = "localhost"; port = pos 6379 };
  postgres = record {
    host = "localhost";
    port = pos 5432;
    database = "trading";
    user = "trader";
    password = "";
  };
  kafka = record {
    brokers = "localhost:9092" ∷ [];
    transaction_topic = "transactions";
    consumer_group = "engine";
  };
  risk = record {
    max_order_quantity = pos 5;
    max_order_notional = pos 9;
    max_position_quantity = pos 8;
    stale_after_ms = pos 1000;
    kill_switch_enabled = false;
  };
  strategy = record {
    strategy_id = "threshold";
    trigger_instrument_id = "BTC-USD";
    trigger_price = pos 7;
    order_quantity = pos 1;
    side = "buy";
  };
  simulation = record {
    partial_fill_threshold = pos 2;
    partial_fill_ratio = pos 1;
    auto_complete_partial_fills = false;
  };
  allow_fallback = false;
}

settings_loaded : load_from_file scientific_text environment (some settings_text) ≡ some settings
unfolding load_from_file lookup insert dec_str read_integer
settings_loaded = refl

settings_valid : (validate settings).valid ≡ true
unfolding validate dec_str
settings_valid = refl

load_from_file-IsAcceptable_example :
    (d : Dict String) × (read_config_lines (lines_of settings_text) [] ≡ some d)
    × IsAcceptable scientific_text (λ key.
      first_of
        (by_older_variable environment key)
        (first_of (by_variable environment known_keys key) (lookup key d)))
load_from_file-IsAcceptable_example =
    load_from_file-IsAcceptable scientific_text environment settings_text settings settings_loaded
      settings_valid
