-- ===== src/MatchingEngine/Submit.antt =====
-- `MatchingEngine::submit` of src/execution/matching_engine.cpp.
use wall.Core.{
  Double, ExecutionResult, FillEvent, OrderRecord, OrderRequest, OrderSide, OrderType, OrderUpdate,
  acknowledged, buy, created, filled, limit, market, partially_filled, quantity_tolerance, rejected,
  sell,
}
use wall.MatchingEngine.{
  MatchingEngine, apply_fill_to_order, best_order, book_for, client_order_id_of, crosses,
  fill_id_of, has_positive_price, make_update, new_record, order_id_of, resting_count, set_filled,
  set_status,
}
use wall.OrderBook.{OrderBook, add_order, apply_fill, levels_of}
use wall.OrderBook.PriceLevels.{RestingOrder}
use wall.Prelude.{
  Bool, List, Option, String, [], false, if◌then◌else◌, inc_u64, none, not, some, suc, true,
  value_or, zero, ℕ, ◌++◌, ◌||◌, ◌∷◌,
}
use wall.Prelude.Dict.{Dict, insert}
use wall.Prelude.Int.{abs, leb_ℤ, ltb_ℤ, max_ℤ, min_ℤ, pos, ◌-ℤ◌}

-- What the loop of `submit` changes.
pub record Matching : Type 0 where
  pub book : OrderBook
  pub orders : Dict OrderRecord
  pub fills : List FillEvent
  pub remaining_quantity : Double
  pub next_fill_id : ℕ

abbrev pub opposite : OrderSide → OrderSide
opposite buy = sell
opposite sell = buy

abbrev pub taker_fill : OrderRequest → String → RestingOrder → Double → ℕ → FillEvent
taker_fill r order_id o executed n = record {
  fill_id = fill_id_of n;
  order_id = order_id;
  instrument = r.instrument;
  side = r.side;
  price = value_or o.request.price (pos 0);
  quantity = executed;
  fee = pos 0;
}

-- The rest of a round, on what `book.apply_fill` returned.
abbrev pub matched :
    OrderRequest → String → RestingOrder → Double → Matching → OrderBook × Bool → Option Matching
matched r order_id o executed s (book, false) = none
matched r order_id o executed s (book, true) = some (record {
  book = book;
  orders = apply_fill_to_order s.orders o.order_id executed;
  fills = s.fills ++ taker_fill r order_id o executed s.next_fill_id ∷ [];
  remaining_quantity = max_ℤ (pos 0) (s.remaining_quantity -ℤ executed);
  next_fill_id = inc_u64 s.next_fill_id;
})

abbrev pub match_against : OrderRequest → String → Matching → Option RestingOrder → Option Matching
match_against r order_id s none = none
match_against r order_id s (some o) =
    if not (crosses r o)
    then none
    else let executed = min_ℤ s.remaining_quantity o.remaining_quantity in
      matched r order_id o executed s (apply_fill s.book o.order_id executed)

-- One round of the loop; `none` when the loop ends, by its test or by a `break`.
unfoldable pub match_step : OrderRequest → String → Matching → Option Matching
match_step r order_id s =
    if ltb_ℤ quantity_tolerance s.remaining_quantity
    then match_against r order_id s (best_order (opposite r.side) s.book)
    else none

unfoldable pub match_loop : ℕ → OrderRequest → String → Matching → Matching
match_loop zero r order_id s = s
match_loop (suc fuel) r order_id s = elim (match_step r order_id s) [
  | none ↦ s
  | some s' ↦ match_loop fuel r order_id s'
]

abbrev pub match_fuel : OrderRequest → OrderBook → ℕ
match_fuel r b = suc (resting_count (levels_of (opposite r.side) b))

-- `submit` after its loop: the residual is rested, and the last update is written. `orders` has the
-- filled quantity already.
abbrev pub finished :
    OrderRequest
    → String
    → String
    → Double
    → Bool
    → Dict OrderRecord
    → Dict OrderRecord × List OrderUpdate
finished r order_id client_order_id total false orders = (
  set_status order_id rejected orders,
  make_update order_id client_order_id rejected total
        (some "failed to rest residual order quantity")
      ∷ [],
)
finished r order_id client_order_id total true orders =
    if leb_ℤ (abs (total -ℤ r.quantity)) quantity_tolerance
    then (
      set_status order_id filled (set_filled order_id r.quantity orders),
      make_update order_id client_order_id filled total none ∷ [],
    )
    else if ltb_ℤ quantity_tolerance total
    then (
      set_status order_id partially_filled orders,
      make_update order_id client_order_id partially_filled total none ∷ [],
    )
    else (orders, [])

abbrev pub rested : OrderRequest → String → String → Double → Matching → OrderBook × Bool
rested r order_id client_order_id total s =
    if ltb_ℤ quantity_tolerance s.remaining_quantity
    then add_order s.book r order_id client_order_id total
    else (s.book, true)

abbrev pub after_loop :
    MatchingEngine → OrderRequest → String → String → Matching → MatchingEngine × ExecutionResult
after_loop m r order_id client_order_id s =
    let total = max_ℤ (pos 0) (r.quantity -ℤ s.remaining_quantity) in
    let (book, ok) = rested r order_id client_order_id total s in
    let (orders, updates) =
      finished r order_id client_order_id total ok (set_filled order_id total s.orders) in
    (
      record m {
        books = insert r.instrument.instrument_id book m.books;
        orders = orders;
        next_fill_id = s.next_fill_id;
      },
      record {
        order_id = order_id;
        client_order_id = client_order_id;
        updates = make_update order_id client_order_id acknowledged (pos 0) none ∷ updates;
        fills = s.fills;
      },
    )

abbrev pub matching_start : MatchingEngine → OrderRequest → String → Matching
matching_start m r order_id = record {
  book = book_for m.books r.instrument;
  orders = set_status order_id acknowledged m.orders;
  fills = [];
  remaining_quantity = r.quantity;
  next_fill_id = m.next_fill_id;
}

-- `submit` from `book_for` on, for a request that passed the checks.
unfoldable pub submit_valid :
    MatchingEngine → OrderRequest → String → String → MatchingEngine × ExecutionResult
submit_valid m r order_id client_order_id =
    let s = matching_start m r order_id in
    after_loop m r order_id client_order_id (match_loop (match_fuel r s.book) r order_id s)

abbrev pub submit_rejected :
    MatchingEngine → String → String → String → MatchingEngine × ExecutionResult
submit_rejected m order_id client_order_id reason = (
  record m { orders = set_status order_id rejected m.orders },
  record {
    order_id = order_id;
    client_order_id = client_order_id;
    updates = make_update order_id client_order_id rejected (pos 0) (some reason) ∷ [];
    fills = [];
  },
)

abbrev pub is_market : OrderType → Bool
is_market market = true
is_market limit = false

-- The state as `submit` leaves it before its first test: both counters moved, the order recorded.
abbrev pub registered : MatchingEngine → OrderRequest → MatchingEngine
registered m r =
    let order_id = order_id_of m.next_order_id in
    record m {
      orders =
          insert order_id
            (new_record r order_id (client_order_id_of m.next_client_order_id) created (pos 0))
            m.orders;
      next_order_id = inc_u64 m.next_order_id;
      next_client_order_id = inc_u64 m.next_client_order_id;
    }

unfoldable pub submit : MatchingEngine → OrderRequest → MatchingEngine × ExecutionResult
unfolding submit_valid
submit m r =
    let order_id = order_id_of m.next_order_id in
    let client_order_id = client_order_id_of m.next_client_order_id in
    let m' = registered m r in
    if is_market r.order_type
    then submit_rejected m' order_id client_order_id
        "market orders are not supported by the matching engine"
    else if not (has_positive_price r.price) || leb_ℤ r.quantity (pos 0)
    then submit_rejected m' order_id client_order_id "invalid matching-engine order request"
    else submit_valid m' r order_id client_order_id
