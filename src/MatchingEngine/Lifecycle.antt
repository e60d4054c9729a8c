-- ===== src/MatchingEngine/Lifecycle.antt =====
-- `cancel`, `restore_open_order`, `get_order` and `find_book` of src/execution/matching_engine.cpp.
use wall.Core.{
  Double, ExecutionResult, OrderRecord, OrderRequest, OrderStatus, acknowledged, canceled,
  is_terminal, partially_filled, pending_cancel, quantity_tolerance, rejected,
}
use wall.MatchingEngine.{
  MatchingEngine, book_for, has_positive_price, make_update, new_record, set_status,
}
use wall.OrderBook.{OrderBook, add_order, cancel_order}
use wall.Prelude.{Bool, Option, String, [], false, if◌then◌else◌, none, not, some, true, ◌||◌, ◌∷◌}
use wall.Prelude.Dict.{erase, insert, lookup}
use wall.Prelude.Int.{leb_ℤ, ltb_ℤ, pos, ◌-ℤ◌}

unfoldable pub get_order : MatchingEngine → String → Option OrderRecord
get_order m order_id = lookup order_id m.orders

unfoldable pub find_book : MatchingEngine → String → Option OrderBook
find_book m instrument_id = lookup instrument_id m.books

abbrev pub cancel_rejected :
    MatchingEngine → String → String → Double → String → MatchingEngine × ExecutionResult
cancel_rejected m order_id client_order_id q reason = (
  m,
  record {
    order_id = order_id;
    client_order_id = client_order_id;
    updates = make_update order_id client_order_id rejected q (some reason) ∷ [];
    fills = [];
  },
)

-- The end of `cancel`, on what `cancel_order` of the book returned.
abbrev pub canceled_in :
    MatchingEngine → OrderRecord → String → OrderBook × Bool → MatchingEngine × ExecutionResult
canceled_in m o order_id (book, false) =
    cancel_rejected m order_id o.client_order_id o.filled_quantity "open order not found"
canceled_in m o order_id (book, true) = (
  record m {
    books = insert o.instrument_id book m.books;
    orders = set_status order_id canceled m.orders;
  },
  record {
    order_id = order_id;
    client_order_id = o.client_order_id;
    updates =
        make_update order_id o.client_order_id pending_cancel o.filled_quantity none
        ∷ make_update order_id o.client_order_id canceled o.filled_quantity none
        ∷ [];
    fills = [];
  },
)

abbrev pub cancel_in_book :
    MatchingEngine → OrderRecord → String → Option OrderBook → MatchingEngine × ExecutionResult
cancel_in_book m o order_id none =
    cancel_rejected m order_id o.client_order_id o.filled_quantity "open order not found"
cancel_in_book m o order_id (some book) = canceled_in m o order_id (cancel_order book order_id)

abbrev pub cancel_record :
    MatchingEngine → String → String → Option OrderRecord → MatchingEngine × ExecutionResult
cancel_record m order_id client_order_id none =
    cancel_rejected m order_id client_order_id (pos 0) "open order not found"
cancel_record m order_id client_order_id (some o) =
    if is_terminal o.status
    then cancel_rejected m order_id o.client_order_id o.filled_quantity "order is not cancelable"
    else cancel_in_book m o order_id (lookup o.instrument_id m.books)

unfoldable pub cancel : MatchingEngine → String → String → MatchingEngine × ExecutionResult
cancel m order_id client_order_id =
    cancel_record m order_id client_order_id (lookup order_id m.orders)

abbrev pub restored_status : Double → OrderStatus
restored_status q = if ltb_ℤ (pos 0) q then partially_filled else acknowledged

-- The end of `restore_open_order`, on what `add_order` returned: a failure erases the record.
abbrev pub restored_in : MatchingEngine → OrderRequest → String → OrderBook × Bool → MatchingEngine
restored_in m r order_id (book, true) = record m {
  books = insert r.instrument.instrument_id book m.books;
}
restored_in m r order_id (book, false) = record m {
  books = insert r.instrument.instrument_id book m.books;
  orders = erase order_id m.orders;
}

unfoldable pub restore_open_order :
    MatchingEngine → String → String → OrderRequest → Double → MatchingEngine
restore_open_order m order_id client_order_id r q =
    if not (has_positive_price r.price) || leb_ℤ r.quantity (pos 0)
    then m
    else if ltb_ℤ q (pos 0) || leb_ℤ (r.quantity -ℤ quantity_tolerance) q
    then m
    else restored_in
        (record m {
          orders =
              insert order_id (new_record r order_id client_order_id (restored_status q) q)
                m.orders;
        })
        r order_id (add_order (book_for m.books r.instrument) r order_id client_order_id q)
