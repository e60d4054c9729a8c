-- ===== src/Samples.antt =====
-- The instruments, orders and events that the tests share.
use wall.Core.{
  Double, FillEvent, Instrument, MarketEvent, MarketEventType, OrderRequest, OrderSide, OrderType,
  TransactionCommand,
}
use wall.Core.Arithmetic.{Arithmetic}
use wall.Prelude.{String, [], if◌then◌else◌, none, some, ℕ, ◌*◌, ◌+◌, ◌/◌, ◌^◌, ◌∷◌}
use wall.Prelude.Int.{ltb_ℤ, neg, neg_part, pos, pos_part, ℤ}

-- A number of whole units.
abbrev pub units : ℕ → Double
units n = pos (n * 10 ^ 12)

abbrev pub btc : Instrument
btc = record {
  instrument_id = "BTC-USD";
  exchange = "sim";
  symbol = "BTCUSD";
  base_asset = "BTC";
  quote_asset = "USD";
  tick_size = pos 0;
  lot_size = pos 0;
}

abbrev pub order_at : OrderSide → ℕ → ℕ → OrderRequest
order_at side quantity price = record {
  request_id = "request-1";
  strategy_id = "strategy-1";
  instrument = btc;
  side = side;
  order_type = OrderType.limit;
  quantity = units quantity;
  price = some (units price);
}

abbrev pub quote_at : ℕ → ℕ → MarketEvent
quote_at quantity price = record {
  event_id = "event-1";
  event_type = MarketEventType.trade;
  instrument = btc;
  price = units price;
  quantity = units quantity;
  bid_price = none;
  ask_price = none;
  bid_levels = [];
  ask_levels = record { price = units price; quantity = units quantity } ∷ [];
  exchange_timestamp = pos 1000;
  receive_timestamp = pos 1001;
  process_timestamp = pos 1002;
}

abbrev pub fill_of : OrderSide → ℕ → ℕ → FillEvent
fill_of side quantity price = record {
  fill_id = "fill-1";
  order_id = "order-1";
  instrument = btc;
  side = side;
  price = units price;
  quantity = units quantity;
  fee = pos 0;
}

abbrev pub command_of : String → ℕ → TransactionCommand
command_of id quantity = record {
  transaction_id = id;
  user_id = "user-1";
  account_id = "account-1";
  command_type = "order";
  instrument_symbol = "BTCUSD";
  quantity = units quantity;
  price = none;
  kafka_topic = "transactions";
  kafka_partition = pos 0;
  kafka_offset = pos 7;
}

-- Products and quotients of the units of 1e-12, rounded towards zero.
abbrev pub magnitude : ℤ → ℕ
magnitude a = pos_part a + neg_part a

abbrev pub with_sign : ℤ → ℤ → ℕ → ℤ
with_sign a b n =
    if ltb_ℤ a (pos 0)
    then (if ltb_ℤ b (pos 0) then pos n else neg (pos n))
    else (if ltb_ℤ b (pos 0) then neg (pos n) else pos n)

abbrev pub truncating : Arithmetic
truncating = record {
  times = λ a b. with_sign a b (magnitude a * magnitude b / 10 ^ 12);
  over = λ a b. with_sign a b (magnitude a * 10 ^ 12 / magnitude b);
}
