-- ===== src/MatchingEngine/Sweep.antt =====
-- `MatchingEngine::process_market_event` of src/execution/matching_engine.cpp: the levels that a
-- venue reports are swept against the orders that rest in the local book.
use Prim.Native.String.{compare as compare_str}
use Prim.Native.Nat.{Ordering}
use wall.Core.{
  BookLevel, Double, ExecutionResult, FillEvent, Instrument, MarketEvent, OrderRecord, OrderSide,
  buy, quantity_tolerance, sell,
}
use wall.MatchingEngine.{
  MatchingEngine, append_order_update, apply_fill_to_order, best_order, fill_id_of, resting_count,
}
use wall.OrderBook.{OrderBook, apply_fill, levels_of}
use wall.OrderBook.PriceLevels.{RestingOrder}
use wall.Prelude.{
  Bool, List, Option, String, [], false, if◌then◌else◌, inc_u64, none, some, suc, true, zero, ℕ,
  ◌&&◌, ◌++◌, ◌∷◌,
}
use wall.Prelude.Dict.{Dict, insert, lookup}
use wall.Prelude.Int.{ltb_ℤ, max_ℤ, min_ℤ, pos, ◌+ℤ◌, ◌-ℤ◌}
use wall.Prelude.Text.{is_empty}

-- What the two lambdas change.
pub record Sweep : Type 0 where
  pub book : OrderBook
  pub orders : Dict OrderRecord
  pub fills : List FillEvent
  pub touched_orders : List String
  pub next_fill_id : ℕ

-- The two lambdas differ in the side that rests and in this test, under which the loop breaks.
unfoldable pub out_of_reach : OrderSide → Option Double → Double → Bool
out_of_reach s none level = true
out_of_reach buy (some p) level = ltb_ℤ (p +ℤ quantity_tolerance) level
out_of_reach sell (some p) level = ltb_ℤ level (p -ℤ quantity_tolerance)

-- A restored order has an instrument with no assets: then the event's is taken.
abbrev pub fill_instrument : MarketEvent → RestingOrder → Instrument
fill_instrument event o =
    if is_empty o.request.instrument.base_asset && is_empty o.request.instrument.quote_asset
    then event.instrument
    else o.request.instrument

abbrev pub maker_fill : MarketEvent → BookLevel → RestingOrder → Double → ℕ → FillEvent
maker_fill event level o executed n = record {
  fill_id = fill_id_of n;
  order_id = o.order_id;
  instrument = fill_instrument event o;
  side = o.request.side;
  price = level.price;
  quantity = executed;
  fee = pos 0;
}

-- The rest of a round, on what `book.apply_fill` returned: the state and what is still available.
abbrev pub swept :
    MarketEvent
    → BookLevel
    → RestingOrder
    → Double
    → Double
    → Sweep
    → OrderBook × Bool
    → Option (Sweep × Double)
swept event level o executed available s (book, false) = none
swept event level o executed available s (book, true) = some (
  record {
    book = book;
    orders = apply_fill_to_order s.orders o.order_id executed;
    fills = s.fills ++ maker_fill event level o executed s.next_fill_id ∷ [];
    touched_orders = s.touched_orders ++ o.order_id ∷ [];
    next_fill_id = inc_u64 s.next_fill_id;
  },
  max_ℤ (pos 0) (available -ℤ executed),
)

abbrev pub sweep_order :
    OrderSide
    → MarketEvent
    → BookLevel
    → Double
    → Sweep
    → Option RestingOrder
    → Option (Sweep × Double)
sweep_order side event level available s none = none
sweep_order side event level available s (some o) =
    if out_of_reach side o.request.price level.price
    then none
    else let executed = min_ℤ available o.remaining_quantity in
      swept event level o executed available s (apply_fill s.book o.order_id executed)

-- One round of the inner loop; `none` when it ends, by its test or by a `break`.
unfoldable pub sweep_step :
    OrderSide → MarketEvent → BookLevel → Double → Sweep → Option (Sweep × Double)
sweep_step side event level available s =
    if ltb_ℤ quantity_tolerance available
    then sweep_order side event level available s (best_order side s.book)
    else none

unfoldable pub sweep_level :
    ℕ → OrderSide → MarketEvent → BookLevel → Double → Sweep → Sweep × Double
sweep_level zero side event level available s = (s, available)
sweep_level (suc fuel) side event level available s =
    elim (sweep_step side event level available s) [
      | none ↦ (s, available)
      | some (s', available') ↦ sweep_level fuel side event level available' s'
    ]

abbrev pub sweep_fuel : OrderSide → Sweep → ℕ
sweep_fuel side s = suc (resting_count (levels_of side s.book))

unfoldable pub sweep_levels : OrderSide → MarketEvent → List BookLevel → Sweep → Sweep
sweep_levels side event [] s = s
sweep_levels side event (level ∷ levels) s =
    sweep_levels side event levels
      (sweep_level (sweep_fuel side s) side event level level.quantity s).0

-- `std::sort` and `std::unique` on the identifiers, which `std::string` orders by bytes.
insert_unique : String → List String → List String
insert_unique k [] = k ∷ []
insert_unique k (j ∷ l) = elim (compare_str k j) [
  | Ordering.lt ↦ k ∷ j ∷ l
  | Ordering.eq ↦ j ∷ l
  | Ordering.gt ↦ j ∷ insert_unique k l
]

unfoldable pub sort_unique : List String → List String
unfolding insert_unique
sort_unique [] = []
sort_unique (k ∷ l) = insert_unique k (sort_unique l)

unfoldable pub append_order_updates :
    Dict OrderRecord → ExecutionResult → List String → ExecutionResult
append_order_updates orders result [] = result
append_order_updates orders result (k ∷ l) =
    append_order_updates orders (append_order_update orders result k) l

abbrev pub empty_result : ExecutionResult
empty_result = record { order_id = ""; client_order_id = ""; updates = []; fills = [] }

abbrev pub sweep_start : MatchingEngine → OrderBook → Sweep
sweep_start m book = record {
  book = book;
  orders = m.orders;
  fills = [];
  touched_orders = [];
  next_fill_id = m.next_fill_id;
}

-- First the asks that the venue shows meet the local bids, then its bids meet the local asks.
unfoldable pub sweep_book : MarketEvent → Sweep → Sweep
sweep_book event s =
    sweep_levels sell event event.bid_levels (sweep_levels buy event event.ask_levels s)

abbrev pub process_in_book :
    MatchingEngine → MarketEvent → Option OrderBook → MatchingEngine × ExecutionResult
process_in_book m event none = (m, empty_result)
process_in_book m event (some book) =
    let s = sweep_book event (sweep_start m book) in
    (
      record m {
        books = insert event.instrument.instrument_id s.book m.books;
        orders = s.orders;
        next_fill_id = s.next_fill_id;
      },
      append_order_updates s.orders (record empty_result { fills = s.fills })
          (sort_unique s.touched_orders),
    )

unfoldable pub process_market_event :
    MatchingEngine → MarketEvent → MatchingEngine × ExecutionResult
process_market_event m event =
    process_in_book m event (lookup event.instrument.instrument_id m.books)
