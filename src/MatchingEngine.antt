-- ===== src/MatchingEngine.antt =====
-- include/execution/matching_engine.hpp and src/execution/matching_engine.cpp: the matching engine,
-- which keeps a book for each instrument and a record for each order. The two `while` loops run on
-- fuel, one round for each resting order and one more.
pub mod Submit
pub mod Sweep
pub mod Lifecycle
pub mod Rounds
pub mod Matches
pub mod Residual
pub mod Outcome
pub mod Books
pub mod SubmitLaws
pub mod Guarantees
pub mod SweepRounds
pub mod SweepLaws
pub mod Calls
pub mod Cancel
pub mod Priority
pub mod TradeOrder
use Prim.Native.String.{◌++◌ as ◌<>◌}
use wall.Core.{
  Double, ExecutionResult, Instrument, OrderRecord, OrderRequest, OrderSide, OrderStatus,
  OrderUpdate, buy, filled, partially_filled, quantity_tolerance, sell,
}
use wall.OrderBook.{OrderBook, best_ask_order, best_bid_order, new_book}
use wall.OrderBook.PriceLevels.{Levels, RestingOrder}
use wall.Prelude.{
  Bool, Option, String, [], false, if◌then◌else◌, length, none, some, value_or, ℕ, ◌++◌, ◌+◌, ◌∷◌,
}
use wall.Prelude.Dict.{Dict, lookup, modify}
use wall.Prelude.Int.{abs, leb_ℤ, ltb_ℤ, min_ℤ, pos, ◌+ℤ◌, ◌-ℤ◌}
use wall.Prelude.Text.{to_string}

pub record MatchingEngine : Type 0 where
  pub books : Dict OrderBook
  pub orders : Dict OrderRecord
  pub next_order_id : ℕ
  pub next_client_order_id : ℕ
  pub next_fill_id : ℕ

unfoldable pub new_engine : MatchingEngine
new_engine = record {
  books = [];
  orders = [];
  next_order_id = 1;
  next_client_order_id = 1;
  next_fill_id = 1;
}

-- The identifiers that the engine makes from its counters.
abbrev pub order_id_of : ℕ → String
order_id_of n = "match-order-" <> to_string n

abbrev pub client_order_id_of : ℕ → String
client_order_id_of n = "match-client-" <> to_string n

abbrev pub fill_id_of : ℕ → String
fill_id_of n = "match-fill-" <> to_string n

abbrev pub make_update : String → String → OrderStatus → Double → Option String → OrderUpdate
make_update order_id client_order_id s q reason = record {
  order_id = order_id;
  client_order_id = client_order_id;
  status = s;
  filled_quantity = q;
  reason = reason;
}

-- `books_.try_emplace`: the book of the instrument, a new one if there is none.
abbrev pub book_for : Dict OrderBook → Instrument → OrderBook
book_for books i = value_or (lookup i.instrument_id books) (new_book i)

unfoldable pub crosses_at : OrderSide → Option Double → Option Double → Bool
crosses_at s none resting = false
crosses_at s (some p) none = false
crosses_at buy (some p) (some q) = leb_ℤ q p
crosses_at sell (some p) (some q) = leb_ℤ p q

abbrev pub crosses : OrderRequest → RestingOrder → Bool
crosses incoming resting = crosses_at incoming.side incoming.price resting.request.price

-- The record of an order after a fill, in `apply_fill_to_order`.
unfoldable pub filled_record : OrderRecord → Double → OrderRecord
filled_record o executed =
    let capped = min_ℤ o.quantity (o.filled_quantity +ℤ executed) in
    let total =
      if leb_ℤ (abs (capped -ℤ o.quantity)) quantity_tolerance then o.quantity else capped in
    record o {
      filled_quantity = total;
      status = if leb_ℤ (o.quantity -ℤ quantity_tolerance) total then filled else partially_filled;
    }

unfoldable pub apply_fill_to_order : Dict OrderRecord → String → Double → Dict OrderRecord
unfolding filled_record
apply_fill_to_order orders order_id executed =
    if leb_ℤ executed quantity_tolerance
    then orders
    else modify order_id (λ o. filled_record o executed) orders

unfoldable pub append_order_update : Dict OrderRecord → ExecutionResult → String → ExecutionResult
append_order_update orders result order_id = elim (lookup order_id orders) [
  | none ↦ result
  | some o ↦ record result {
    updates =
        result.updates
        ++ make_update o.order_id o.client_order_id o.status o.filled_quantity none ∷ [];
  }
]

abbrev pub best_order : OrderSide → OrderBook → Option RestingOrder
best_order buy b = best_bid_order b
best_order sell b = best_ask_order b

-- How many orders rest on the levels.
unfoldable pub resting_count : Levels → ℕ
resting_count [] = 0
resting_count ((p, q) ∷ ls) = length q + resting_count ls

-- `orders_[id].status = …`, and the update that goes with it.
abbrev pub set_status : String → OrderStatus → Dict OrderRecord → Dict OrderRecord
set_status order_id s = modify order_id (λ o. record o { status = s })

abbrev pub set_filled : String → Double → Dict OrderRecord → Dict OrderRecord
set_filled order_id q = modify order_id (λ o. record o { filled_quantity = q })

abbrev pub new_record : OrderRequest → String → String → OrderStatus → Double → OrderRecord
new_record r order_id client_order_id s q = record {
  order_id = order_id;
  client_order_id = client_order_id;
  strategy_id = r.strategy_id;
  instrument_id = r.instrument.instrument_id;
  side = r.side;
  order_type = r.order_type;
  status = s;
  quantity = r.quantity;
  price = r.price;
  filled_quantity = q;
}

abbrev pub has_positive_price : Option Double → Bool
has_positive_price none = false
has_positive_price (some p) = ltb_ℤ (pos 0) p
