-- ===== src/Core.antt =====
-- include/core/types.hpp: the types that every part of the engine shares.
-- A `double` is an integer number of units of 1e-12: sums, differences and comparisons are exact.
-- Products and quotients are rounded, by an `Arithmetic` that the parts that need one take as an
-- argument. NaN and the infinities are left out, and an `std::int64_t` is not held to 64 bits.
pub mod Arithmetic
use wall.Prelude.{String, List, Option, Bool, true, false}
use wall.Prelude.Int.{ℤ, pos}

abbrev pub Double : Type 0
Double = ℤ

abbrev pub Int64 : Type 0
Int64 = ℤ

-- `kQuantityTolerance`, 1e-9
abbrev pub quantity_tolerance : Double
quantity_tolerance = pos 1000

-- 1.0
abbrev pub one : Double
one = pos 1_000_000_000_000

pub data MarketEventType : Type 0 where
  book_snapshot trade ticker timer : MarketEventType

pub data OrderSide : Type 0 where
  buy sell : OrderSide

pub data OrderType : Type 0 where
  market limit : OrderType

pub data OrderStatus : Type 0 where
  created pending_submit acknowledged partially_filled filled pending_cancel canceled rejected
        expired :
      OrderStatus

pub record Instrument : Type 0 where
  pub instrument_id : String
  pub exchange : String
  pub symbol : String
  pub base_asset : String
  pub quote_asset : String
  pub tick_size : Double
  pub lot_size : Double

pub record BookLevel : Type 0 where
  pub price : Double
  pub quantity : Double

pub record MarketEvent : Type 0 where
  pub event_id : String
  pub event_type : MarketEventType
  pub instrument : Instrument
  pub price : Double
  pub quantity : Double
  pub bid_price : Option Double
  pub ask_price : Option Double
  pub bid_levels : List BookLevel
  pub ask_levels : List BookLevel
  pub exchange_timestamp : Int64
  pub receive_timestamp : Int64
  pub process_timestamp : Int64

pub record OrderRequest : Type 0 where
  pub request_id : String
  pub strategy_id : String
  pub instrument : Instrument
  pub side : OrderSide
  pub order_type : OrderType
  pub quantity : Double
  pub price : Option Double

pub record OrderUpdate : Type 0 where
  pub order_id : String
  pub client_order_id : String
  pub status : OrderStatus
  pub filled_quantity : Double
  pub reason : Option String

pub record FillEvent : Type 0 where
  pub fill_id : String
  pub order_id : String
  pub instrument : Instrument
  pub side : OrderSide
  pub price : Double
  pub quantity : Double
  pub fee : Double

pub record Position : Type 0 where
  pub position_id : String
  pub instrument : Instrument
  pub net_quantity : Double
  pub average_entry_price : Double
  pub realized_pnl : Double
  pub unrealized_pnl : Double

pub record BalanceSnapshot : Type 0 where
  pub asset : String
  pub total_balance : Double
  pub available_balance : Double

pub record TimerEvent : Type 0 where
  pub timer_id : String
  pub timestamp : Int64

pub record TransactionCommand : Type 0 where
  pub transaction_id : String
  pub user_id : String
  pub account_id : String
  pub command_type : String
  pub instrument_symbol : String
  pub quantity : Double
  pub price : Option Double
  pub kafka_topic : String
  pub kafka_partition : Int64
  pub kafka_offset : Int64

-- `std::variant<MarketEvent, TimerEvent, TransactionCommand>`
pub data EngineEvent : Type 0 where
  market_event : MarketEvent → EngineEvent
  timer_event : TimerEvent → EngineEvent
  transaction_command : TransactionCommand → EngineEvent

-- `OrderRecord` of include/storage/storage_interfaces.hpp, which the execution parts keep too.
pub record OrderRecord : Type 0 where
  pub order_id : String
  pub client_order_id : String
  pub strategy_id : String
  pub instrument_id : String
  pub side : OrderSide
  pub order_type : OrderType
  pub status : OrderStatus
  pub quantity : Double
  pub price : Option Double
  pub filled_quantity : Double

-- The same `is_terminal` stands in the matching engine and in the live tracker.
abbrev pub is_terminal : OrderStatus → Bool
is_terminal OrderStatus.filled = true
is_terminal OrderStatus.canceled = true
is_terminal OrderStatus.rejected = true
is_terminal OrderStatus.expired = true
is_terminal _ = false

-- A value-initialised `Instrument`, with its identifier given.
abbrev pub bare_instrument : String → Instrument
bare_instrument i = record {
  instrument_id = i;
  exchange = "";
  symbol = "";
  base_asset = "";
  quote_asset = "";
  tick_size = pos 0;
  lot_size = pos 0;
}

-- `ExecutionResult` of include/execution/simulated_execution_engine.hpp
pub record ExecutionResult : Type 0 where
  pub order_id : String
  pub client_order_id : String
  pub updates : List OrderUpdate
  pub fills : List FillEvent
