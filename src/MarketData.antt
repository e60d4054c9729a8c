-- ===== src/MarketData.antt =====
-- src/market_data/market_state_store.cpp: the latest market state of each instrument. The clock's
-- time is an argument of the test that reads it.
pub mod Store
pub mod Feed
use wall.Core.{BookLevel, Double, Int64, MarketEvent}
use wall.Prelude.{
  Bool, List, Option, String, [], if◌then◌else◌, none, some, true, value_or, ◌&&◌, ◌∷◌,
}
use wall.Prelude.Dict.{Dict, insert, lookup}
use wall.Prelude.Int.{ltb_ℤ, pos, ◌-ℤ◌}

pub record MarketState : Type 0 where
  pub best_bid : Option Double
  pub best_ask : Option Double
  pub bid_levels : List BookLevel
  pub ask_levels : List BookLevel
  pub last_trade_price : Option Double
  pub last_trade_quantity : Option Double
  pub last_exchange_timestamp : Int64
  pub last_receive_timestamp : Int64
  pub last_process_timestamp : Int64

-- `states_`
abbrev pub MarketStateStore : Type 0
MarketStateStore = Dict MarketState

abbrev pub blank_state : MarketState
blank_state = record {
  best_bid = none;
  best_ask = none;
  bid_levels = [];
  ask_levels = [];
  last_trade_price = none;
  last_trade_quantity = none;
  last_exchange_timestamp = pos 0;
  last_receive_timestamp = pos 0;
  last_process_timestamp = pos 0;
}

abbrev pub or_else : Option Double → Option Double → Option Double
or_else none old = old
or_else (some x) old = some x

abbrev pub front_price : List BookLevel → Option Double → Option Double
front_price [] old = old
front_price (l ∷ ls) old = some l.price

abbrev pub levels_or : List BookLevel → List BookLevel → List BookLevel
levels_or [] old = old
levels_or (l ∷ ls) old = l ∷ ls

abbrev pub is_out_of_order : MarketState → MarketEvent → Bool
is_out_of_order s e =
    ltb_ℤ (pos 0) s.last_process_timestamp && ltb_ℤ e.process_timestamp s.last_process_timestamp

abbrev pub is_trade : MarketEvent → Bool
is_trade e = ltb_ℤ (pos 0) e.quantity && ltb_ℤ (pos 0) e.price

-- The steps 2 to 4 of `apply`.
unfoldable pub updated : MarketState → MarketEvent → MarketState
updated s e = record {
  best_bid = front_price e.bid_levels (or_else e.bid_price s.best_bid);
  best_ask = front_price e.ask_levels (or_else e.ask_price s.best_ask);
  bid_levels = levels_or e.bid_levels s.bid_levels;
  ask_levels = levels_or e.ask_levels s.ask_levels;
  last_trade_price = if is_trade e then some e.price else s.last_trade_price;
  last_trade_quantity = if is_trade e then some e.quantity else s.last_trade_quantity;
  last_exchange_timestamp = e.exchange_timestamp;
  last_receive_timestamp = e.receive_timestamp;
  last_process_timestamp = e.process_timestamp;
}

abbrev pub next_state : MarketState → MarketEvent → MarketState
next_state s e = if is_out_of_order s e then s else updated s e

abbrev pub state_of : MarketStateStore → String → MarketState
state_of d instrument_id = value_or (lookup instrument_id d) blank_state

-- `states_[id]` makes a blank state where there is none, which stays also when the event is ignored.
unfoldable pub apply : MarketStateStore → MarketEvent → MarketStateStore
apply d e =
    insert e.instrument.instrument_id (next_state (state_of d e.instrument.instrument_id) e) d

unfoldable pub get : MarketStateStore → String → Option MarketState
get d instrument_id = lookup instrument_id d

unfoldable pub is_stale : MarketStateStore → Int64 → String → Int64 → Bool
unfolding get
is_stale d now_ms instrument_id stale_after_ms = elim (get d instrument_id) [
  | none ↦ true
  | some s ↦ ltb_ℤ stale_after_ms (now_ms -ℤ s.last_process_timestamp)
]

unfoldable pub restore_snapshot : MarketStateStore → String → MarketState → MarketStateStore
restore_snapshot d instrument_id snapshot = insert instrument_id snapshot d

-- Events applied in their order.
unfoldable pub apply_all : MarketStateStore → List MarketEvent → MarketStateStore
unfolding apply
apply_all d [] = d
apply_all d (e ∷ es) = apply_all (apply d e) es
