-- ===== src/OrderBook.antt =====
-- include/execution/order_book.hpp and src/execution/order_book.cpp: the limit order book of one
-- instrument. The two `std::map`s of price levels are lists of levels in the order of the map; a
-- deque of orders is a list, its front first.
pub mod PriceLevels
pub mod Ranked
pub mod Replace
pub mod Weigh
pub mod Stocked
pub mod Queues
pub mod Changes
pub mod Validity
pub mod Operations
pub mod Adding
pub mod Safety
pub mod Front
pub mod Crossings
pub mod Added
pub mod Ladder
use wall.Core.{
  Double, Instrument, OrderRequest, OrderSide, OrderType, buy, limit, market, quantity_tolerance,
  sell,
}
use PriceLevels.{
  FillOutcome, Levels, RestingOrder, apply_fill_to_levels, consumed, erase_from_levels,
  find_in_queue, level_find, push_order, reduced, refused,
}
use wall.Prelude.{
  Bool, List, Option, String, [], dec_u64, false, if◌then◌else◌, inc_u64, ite, length, map, none,
  not, some, true, ℕ, ◌||◌, ◌∷◌,
}
use wall.Prelude.Dict.{Dict, contains, erase, insert, lookup}
use wall.Prelude.Int.{leb_ℤ, ltb_ℤ, max_ℤ, pos, ◌+ℤ◌, ◌-ℤ◌}
use wall.Prelude.Text.{dec_str, is_empty}

pub record OrderBookLevel : Type 0 where
  pub price : Double
  pub total_quantity : Double
  pub order_count : ℕ

-- `OrderLocator`
pub record OrderLocator : Type 0 where
  pub side : OrderSide
  pub price : Double

pub record OrderBook : Type 0 where
  pub instrument : Instrument
  pub bid_levels : Levels
  pub ask_levels : Levels
  pub order_index : Dict OrderLocator
  pub order_count : ℕ
  pub next_sequence_number : ℕ

unfoldable pub new_book : Instrument → OrderBook
new_book i = record {
  instrument = i;
  bid_levels = [];
  ask_levels = [];
  order_index = [];
  order_count = 0;
  next_sequence_number = 1;
}

-- The levels that a side's orders rest on, and the book with that side's levels replaced.
abbrev pub levels_of : OrderSide → OrderBook → Levels
levels_of buy b = b.bid_levels
levels_of sell b = b.ask_levels

abbrev pub with_levels : OrderSide → Levels → OrderBook → OrderBook
with_levels buy l b = record b { bid_levels = l }
with_levels sell l b = record b { ask_levels = l }

abbrev is_limit : OrderType → Bool
is_limit limit = true
is_limit market = false

abbrev is_positive : Option Double → Bool
is_positive none = false
is_positive (some p) = ltb_ℤ (pos 0) p

unfoldable pub is_request_compatible : OrderBook → OrderRequest → String → String → Double → Bool
is_request_compatible b r order_id client_order_id filled_quantity =
    if is_empty order_id || is_empty client_order_id
    then false
    else ite (dec_str r.instrument.instrument_id b.instrument.instrument_id)
        (if not (is_limit r.order_type)
          then false
          else if not (is_positive r.price)
          then false
          else if leb_ℤ r.quantity (pos 0)
              || (ltb_ℤ filled_quantity (pos 0)
                  || leb_ℤ (r.quantity -ℤ quantity_tolerance) filled_quantity)
          then false
          else not (contains order_id b.order_index))
        false

abbrev pub resting_order : OrderRequest → String → String → Double → ℕ → RestingOrder
resting_order r order_id client_order_id filled_quantity n = record {
  order_id = order_id;
  client_order_id = client_order_id;
  request = r;
  remaining_quantity = max_ℤ (pos 0) (r.quantity -ℤ filled_quantity);
  sequence_number = n;
}

-- The part of `add_order` after its test. `*request.price` was seen to be there; the first case,
-- which the test rules out, leaves the book alone.
unfoldable pub rest :
    OrderBook → OrderRequest → String → String → Double → Option Double → OrderBook
rest b r order_id client_order_id filled_quantity none = b
rest b r order_id client_order_id filled_quantity (some price) =
    let o : RestingOrder =
      resting_order r order_id client_order_id filled_quantity b.next_sequence_number in
    record (with_levels r.side (push_order r.side price o (levels_of r.side b)) b) {
      order_index = insert order_id (record { side = r.side; price = price }) b.order_index;
      order_count = inc_u64 b.order_count;
      next_sequence_number = inc_u64 b.next_sequence_number;
    }

-- A method returns the new book and its result.
unfoldable pub add_order : OrderBook → OrderRequest → String → String → Double → OrderBook × Bool
unfolding is_request_compatible rest
add_order b r order_id client_order_id filled_quantity =
    if is_request_compatible b r order_id client_order_id filled_quantity
    then (rest b r order_id client_order_id filled_quantity r.price, true)
    else (b, false)

-- The end of `cancel_order`, on what `erase_from_levels` returned.
abbrev erased : OrderBook → String → OrderSide → Option Levels → OrderBook × Bool
erased b order_id s none = (b, false)
erased b order_id s (some l) = (
  record (with_levels s l b) {
    order_index = erase order_id b.order_index;
    order_count = dec_u64 b.order_count;
  },
  true,
)

abbrev pub cancel_at : OrderBook → String → Option OrderLocator → OrderBook × Bool
cancel_at b order_id none = (b, false)
cancel_at b order_id (some at) =
    erased b order_id at.side (erase_from_levels order_id at.price (levels_of at.side b))

unfoldable pub cancel_order : OrderBook → String → OrderBook × Bool
cancel_order b order_id = cancel_at b order_id (lookup order_id b.order_index)

-- `std::accumulate` of the remaining quantities
unfoldable pub total_remaining : List RestingOrder → Double
total_remaining [] = pos 0
total_remaining (o ∷ q) = o.remaining_quantity +ℤ total_remaining q

abbrev pub make_level : Double × List RestingOrder → OrderBookLevel
make_level (p, q) = record { price = p; total_quantity = total_remaining q; order_count = length q }

abbrev best_level : Levels → Option OrderBookLevel
best_level [] = none
best_level (l ∷ ls) = some (make_level l)

unfoldable pub best_bid : OrderBook → Option OrderBookLevel
best_bid b = best_level b.bid_levels

unfoldable pub best_ask : OrderBook → Option OrderBookLevel
best_ask b = best_level b.ask_levels

unfoldable pub bid_levels : OrderBook → List OrderBookLevel
bid_levels b = map make_level b.bid_levels

unfoldable pub ask_levels : OrderBook → List OrderBookLevel
ask_levels b = map make_level b.ask_levels

abbrev pub find_at : OrderBook → String → Option OrderLocator → Option RestingOrder
find_at b order_id none = none
find_at b order_id (some at) = find_in_queue order_id (level_find at.price (levels_of at.side b))

unfoldable pub find_order : OrderBook → String → Option RestingOrder
find_order b order_id = find_at b order_id (lookup order_id b.order_index)

-- `best_bid_order` and `best_ask_order`: the front of the first level, if both are there.
abbrev pub front_order : Levels → Option RestingOrder
front_order [] = none
front_order ((p, []) ∷ ls) = none
front_order ((p, o ∷ q) ∷ ls) = some o

unfoldable pub best_bid_order : OrderBook → Option RestingOrder
best_bid_order b = front_order b.bid_levels

unfoldable pub best_ask_order : OrderBook → Option RestingOrder
best_ask_order b = front_order b.ask_levels

abbrev settled : OrderBook → String → OrderSide → FillOutcome → OrderBook × Bool
settled b order_id s refused = (b, false)
settled b order_id s (reduced l) = (with_levels s l b, true)
settled b order_id s (consumed l) = (
  record (with_levels s l b) {
    order_index = erase order_id b.order_index;
    order_count = dec_u64 b.order_count;
  },
  true,
)

abbrev pub fill_at : OrderBook → String → Double → Option OrderLocator → OrderBook × Bool
fill_at b order_id executed none = (b, false)
fill_at b order_id executed (some at) =
    settled b order_id at.side
      (apply_fill_to_levels order_id executed at.price (levels_of at.side b))

unfoldable pub apply_fill : OrderBook → String → Double → OrderBook × Bool
apply_fill b order_id executed =
    if leb_ℤ executed quantity_tolerance
    then (b, false)
    else fill_at b order_id executed (lookup order_id b.order_index)
