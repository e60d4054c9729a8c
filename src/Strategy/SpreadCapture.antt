-- ===== src/Strategy/SpreadCapture.antt =====
-- src/strategy/spread_capture_strategy.cpp: one limit order when the spread is wide enough.
use Prim.Native.String.{◌++◌ as ◌<>◌}
use wall.Core.{
  Double, EngineEvent, Instrument, OrderRequest, OrderSide, OrderType, market_event, timer_event,
  transaction_command,
}
use wall.MarketData.{MarketState, MarketStateStore, get}
use wall.Prelude.{
  Bool, List, Option, String, [], false, if◌then◌else◌, inc_u64, ite, none, some, true, ℕ, ◌∷◌,
}
use wall.Prelude.Int.{ltb_ℤ, ◌-ℤ◌}
use wall.Prelude.Text.{dec_str, to_string}
use wall.Strategy.{StrategyInterface}

-- `SpreadCaptureStrategyConfig`
pub record SpreadConfig : Type 0 where
  pub strategy_id : String
  pub instrument : Instrument
  pub min_spread : Double
  pub order_quantity : Double
  pub side : OrderSide

pub record SpreadStrategy : Type 0 where
  pub config : SpreadConfig
  pub has_emitted_signal : Bool
  pub next_request_id : ℕ

abbrev pub spread_request : SpreadStrategy → Double → OrderRequest
spread_request s price = record {
  request_id = s.config.strategy_id <> "-request-" <> to_string s.next_request_id;
  strategy_id = s.config.strategy_id;
  instrument = s.config.instrument;
  side = s.config.side;
  order_type = OrderType.limit;
  quantity = s.config.order_quantity;
  price = some price;
}

abbrev pub spread_signalled : SpreadStrategy → SpreadStrategy
spread_signalled s = record s {
  has_emitted_signal = true;
  next_request_id = inc_u64 s.next_request_id;
}

-- The best bid and the best ask of a state that has both.
abbrev pub quotes : Option MarketState → Option (Double × Double)
quotes none = none
quotes (some m) = elim m.best_bid [
  | none ↦ none
  | some b ↦ elim m.best_ask [ none ↦ none | some a ↦ some (b, a) ]
]

abbrev pub on_quotes :
    SpreadStrategy → Option (Double × Double) → SpreadStrategy × List OrderRequest
on_quotes s none = (s, [])
on_quotes s (some (best_bid, best_ask)) =
    if ltb_ℤ (best_ask -ℤ best_bid) s.config.min_spread then (s, []) else (
      spread_signalled s,
      spread_request s (elim s.config.side [ OrderSide.buy ↦ best_bid | OrderSide.sell ↦ best_ask ])
          ∷ [],
    )

unfoldable pub spread_on_event :
    SpreadStrategy → EngineEvent → MarketStateStore → SpreadStrategy × List OrderRequest
unfolding get
spread_on_event s (market_event e) d =
    if s.has_emitted_signal
    then (s, [])
    else ite (dec_str e.instrument.instrument_id s.config.instrument.instrument_id)
        (on_quotes s (quotes (get d s.config.instrument.instrument_id))) (s, [])
spread_on_event s (timer_event t) d = (s, [])
spread_on_event s (transaction_command c) d =
    ite (dec_str c.command_type "reset_strategy") (record s { has_emitted_signal = false }, [])
      (s, [])

unfoldable pub new_spread : SpreadConfig → SpreadStrategy
new_spread c = record { config = c; has_emitted_signal = false; next_request_id = 1 }

abbrev pub spread_interface : StrategyInterface SpreadStrategy
spread_interface = record {
  id_of = λ s. s.config.strategy_id;
  on_event = λ s e d. let (s', requests) = spread_on_event s e d in (s', some requests);
}
