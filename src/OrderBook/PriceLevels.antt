-- ===== src/OrderBook/PriceLevels.antt =====
-- The price levels of one side of the book (src/execution/order_book.cpp): the `std::map` keyed by
-- price, best price first, and the deques of resting orders at each price.
use wall.Prelude.{ℕ, String, Bool, Option, none, some, List, [], ◌∷◌, ◌++◌, ite, if◌then◌else◌}
use mathlib.Core.Option
use wall.Prelude.Int.{pos, ◌+ℤ◌, ◌-ℤ◌, ltb_ℤ, leb_ℤ, max_ℤ}
use wall.Prelude.Text.{dec_str}
use wall.Core.{Double, quantity_tolerance, OrderSide, buy, sell, OrderRequest}

pub record RestingOrder : Type 0 where
  pub order_id : String
  pub client_order_id : String
  pub request : OrderRequest
  pub remaining_quantity : Double
  pub sequence_number : ℕ

abbrev pub Levels : Type 0
Levels = List (Double × List RestingOrder)

-- The comparators `std::greater` of the bids and `std::less` of the asks.
abbrev pub before : OrderSide → Double → Double → Bool
before buy a b = ltb_ℤ b a
before sell a b = ltb_ℤ a b

-- `levels[price].push_back(order)`: a new level goes where the comparator puts it.
unfoldable pub push_order : OrderSide → Double → RestingOrder → Levels → Levels
push_order s price o [] = (price, o ∷ []) ∷ []
push_order s price o ((p, q) ∷ ls) =
    if before s price p
    then (price, o ∷ []) ∷ (p, q) ∷ ls
    else if before s p price
    then (p, q) ∷ push_order s price o ls
    else (p, q ++ o ∷ []) ∷ ls

-- `levels.find(price)`; a level that is not there is read as an empty one, since both are scanned
-- to the same effect.
unfoldable pub level_find : Double → Levels → List RestingOrder
level_find price [] = []
level_find price ((p, q) ∷ ls) =
    if ltb_ℤ p price then level_find price ls else if ltb_ℤ price p then level_find price ls else q

unfoldable pub find_in_queue : String → List RestingOrder → Option RestingOrder
find_in_queue order_id [] = none
find_in_queue order_id (o ∷ q) =
    ite (dec_str o.order_id order_id) (some o) (find_in_queue order_id q)

-- A level whose queue became empty is erased from the map.
abbrev pub with_queue : Double → List RestingOrder → Levels → Levels
with_queue p [] ls = ls
with_queue p (o ∷ q) ls = (p, o ∷ q) ∷ ls

-- The loop over the deque in `cancel_order`: the deque without the first order of that id.
unfoldable pub erase_from_queue : String → List RestingOrder → Option (List RestingOrder)
erase_from_queue order_id [] = none
erase_from_queue order_id (o ∷ q) =
    ite (dec_str o.order_id order_id) (some q) (Option.map (◌∷◌ o) (erase_from_queue order_id q))

-- The lambda `erase_from_levels` of `cancel_order`; `none` is `false`.
unfoldable pub erase_from_levels : String → Double → Levels → Option Levels
erase_from_levels order_id price [] = none
erase_from_levels order_id price ((p, q) ∷ ls) =
    let later = Option.map (λ (ls : Levels). (p, q) ∷ ls) (erase_from_levels order_id price ls) in
    if ltb_ℤ p price
    then later
    else if ltb_ℤ price p
    then later
    else Option.map (λ q'. with_queue p q' ls) (erase_from_queue order_id q)

-- What a fill does to one deque: nothing, a smaller order, or one order fewer.
pub data QueueOutcome : Type 0 where
  queue_refused : QueueOutcome
  queue_reduced queue_consumed : List RestingOrder → QueueOutcome

abbrev pub push_front : RestingOrder → QueueOutcome → QueueOutcome
push_front o queue_refused = queue_refused
push_front o (queue_reduced q) = queue_reduced (o ∷ q)
push_front o (queue_consumed q) = queue_consumed (o ∷ q)

abbrev pub remaining_after : RestingOrder → Double → Double
remaining_after o executed = max_ℤ (pos 0) (o.remaining_quantity -ℤ executed)

-- The body of the loop in `apply_fill` at the order with the id.
abbrev pub fill_order : RestingOrder → List RestingOrder → Double → QueueOutcome
fill_order o q executed =
    if ltb_ℤ (o.remaining_quantity +ℤ quantity_tolerance) executed
    then queue_refused
    else if leb_ℤ (remaining_after o executed) quantity_tolerance
    then queue_consumed q
    else queue_reduced (record o { remaining_quantity = remaining_after o executed } ∷ q)

-- The loop of `apply_fill` over the deque.
unfoldable pub fill_queue : String → Double → List RestingOrder → QueueOutcome
fill_queue order_id executed [] = queue_refused
fill_queue order_id executed (o ∷ q) =
    ite (dec_str o.order_id order_id) (fill_order o q executed)
      (push_front o (fill_queue order_id executed q))

pub data FillOutcome : Type 0 where
  refused : FillOutcome
  reduced consumed : Levels → FillOutcome

abbrev pub push_level : Double × List RestingOrder → FillOutcome → FillOutcome
push_level l refused = refused
push_level l (reduced ls) = reduced (l ∷ ls)
push_level l (consumed ls) = consumed (l ∷ ls)

abbrev pub at_level : Double → Levels → QueueOutcome → FillOutcome
at_level p ls queue_refused = refused
at_level p ls (queue_reduced q) = reduced ((p, q) ∷ ls)
at_level p ls (queue_consumed q) = consumed (with_queue p q ls)

-- The lambda `apply_fill_to_levels` of `apply_fill`.
unfoldable pub apply_fill_to_levels : String → Double → Double → Levels → FillOutcome
apply_fill_to_levels order_id executed price [] = refused
apply_fill_to_levels order_id executed price ((p, q) ∷ ls) =
    let later = push_level (p, q) (apply_fill_to_levels order_id executed price ls) in
    if ltb_ℤ p price
    then later
    else if ltb_ℤ price p
    then later
    else at_level p ls (fill_queue order_id executed q)
