-- ===== src/Exchange/LiveFeed.antt =====
-- `LiveMarketDataFeedController` of src/exchange/live_market_data_feed.cpp. The calls of the session, and the
-- metrics that are counted, are values in their order; a call of the session does not throw.
use wall.Prelude.{
  Bool, List, String, [], false, if◌then◌else◌, inc_u64, leb, suc, true, zero, ℕ, ◌++◌, ◌∷◌,
}

pub data SessionCall : Type 0 where
  connect disconnect : SessionCall
  subscribe : List String → SessionCall

pub record LiveMarketDataFeedController : Type 0 where
  pub symbols : List String
  pub max_reconnect_attempts : ℕ
  pub reconnect_attempts : ℕ
  pub connected : Bool
  pub session : List SessionCall
  pub has_metrics : Bool
  pub metrics : List String

unfoldable pub new_feed : List String → ℕ → Bool → LiveMarketDataFeedController
new_feed symbols most has_metrics = record {
  symbols = symbols;
  max_reconnect_attempts = most;
  reconnect_attempts = 0;
  connected = false;
  session = [];
  has_metrics = has_metrics;
  metrics = [];
}

abbrev pub called : List SessionCall → LiveMarketDataFeedController → LiveMarketDataFeedController
called cs f = record f { session = f.session ++ cs }

abbrev pub incremented : List String → LiveMarketDataFeedController → LiveMarketDataFeedController
incremented ms f = record f { metrics = f.metrics ++ (if f.has_metrics then ms else []) }

unfoldable pub start : LiveMarketDataFeedController → LiveMarketDataFeedController
start f =
    incremented ("market_data_connects" ∷ "market_data_subscribes" ∷ [])
      (record (called (connect ∷ subscribe f.symbols ∷ []) f) { connected = true })

-- The handler up to its test of the attempts.
abbrev pub dropped : LiveMarketDataFeedController → LiveMarketDataFeedController
dropped f =
    incremented ("market_data_disconnects" ∷ [])
      (called (disconnect ∷ []) (record f { connected = false }))

abbrev pub reconnected : LiveMarketDataFeedController → LiveMarketDataFeedController
reconnected f =
    incremented ("market_data_reconnects" ∷ "market_data_subscribes" ∷ [])
      (record (called (connect ∷ subscribe f.symbols ∷ [])
        (record f { reconnect_attempts = inc_u64 f.reconnect_attempts })) { connected = true })

-- The controller, and whether the handler threw.
unfoldable pub handle_disconnect :
    LiveMarketDataFeedController → LiveMarketDataFeedController × Bool
handle_disconnect f =
    if leb f.max_reconnect_attempts f.reconnect_attempts
    then (dropped f, true)
    else (reconnected (dropped f), false)

-- So many disconnects, up to one that throws.
abbrev pub go_on :
    LiveMarketDataFeedController × Bool
    → (LiveMarketDataFeedController → LiveMarketDataFeedController × Bool)
    → LiveMarketDataFeedController × Bool
go_on (f, true) next = (f, true)
go_on (f, false) next = next f

unfoldable pub disconnects : ℕ → LiveMarketDataFeedController → LiveMarketDataFeedController × Bool
unfolding handle_disconnect
disconnects zero f = (f, false)
disconnects (suc n) f = go_on (handle_disconnect f) (disconnects n)
