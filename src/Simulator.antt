-- ===== src/Simulator.antt =====
-- include/execution/simulated_execution_engine.hpp and src/execution/simulated_execution_engine.cpp: the
-- simulated venue, which fills an order at once or, when it is large, a part of it.
pub mod Laws
use Prim.Native.String.{◌++◌ as ◌<>◌}
use wall.Core.{
  Double, ExecutionResult, FillEvent, OrderRequest, OrderStatus, OrderType, OrderUpdate, one,
}
use wall.Core.Arithmetic.{Arithmetic}
use wall.Prelude.{
  Bool, List, Option, String, [], if◌then◌else◌, inc_u64, none, some, value_or, ℕ, ◌&&◌, ◌∷◌,
}
use wall.Prelude.Dict.{Dict, contains, erase, insert, lookup}
use wall.Prelude.Int.{leb_ℤ, ltb_ℤ, pos, ◌-ℤ◌}
use wall.Prelude.Text.{to_string}

pub record SimulatedExecutionConfig : Type 0 where
  pub partial_fill_threshold : Double
  pub partial_fill_ratio : Double

pub record OpenOrderState : Type 0 where
  pub request : OrderRequest
  pub client_order_id : String
  pub filled_quantity : Double

pub record SimulatedExecutionEngine : Type 0 where
  pub config : SimulatedExecutionConfig
  pub open_orders : Dict OpenOrderState
  pub next_order_id : ℕ
  pub next_client_order_id : ℕ
  pub next_fill_id : ℕ

unfoldable pub new_simulator : SimulatedExecutionConfig → SimulatedExecutionEngine
new_simulator c = record {
  config = c;
  open_orders = [];
  next_order_id = 1;
  next_client_order_id = 1;
  next_fill_id = 1;
}

-- `std::clamp(ratio, 0.0, 1.0)`
abbrev pub clamp_partial_fill_ratio : SimulatedExecutionConfig → Double
clamp_partial_fill_ratio c =
    if ltb_ℤ c.partial_fill_ratio (pos 0)
    then pos 0
    else if ltb_ℤ one c.partial_fill_ratio
    then one
    else c.partial_fill_ratio

abbrev pub make_update : String → String → OrderStatus → Double → Option String → OrderUpdate
make_update id client_id st q why = record {
  order_id = id;
  client_order_id = client_id;
  status = st;
  filled_quantity = q;
  reason = why;
}

abbrev pub sim_fill : ℕ → String → OrderRequest → Double → Double → FillEvent
sim_fill n id r p q = record {
  fill_id = "sim-fill-" <> to_string n;
  order_id = id;
  instrument = r.instrument;
  side = r.side;
  price = p;
  quantity = q;
  fee = pos 0;
}

abbrev pub result : String → String → List OrderUpdate → List FillEvent → ExecutionResult
result id client_id us fs = record {
  order_id = id;
  client_order_id = client_id;
  updates = us;
  fills = fs;
}

abbrev pub turned_down : String → String → String → ExecutionResult
turned_down id client_id why =
    result id client_id (make_update id client_id OrderStatus.rejected (pos 0) (some why) ∷ []) []

abbrev pub is_partial : SimulatedExecutionEngine → OrderRequest → Bool
is_partial s r =
    leb_ℤ s.config.partial_fill_threshold r.quantity
    && ltb_ℤ (pos 0) s.config.partial_fill_threshold

-- `emplace`, which keeps an entry that is there.
abbrev pub emplaced : String → OpenOrderState → Dict OpenOrderState → Dict OpenOrderState
emplaced k o d = if contains k d then d else insert k o d

-- `submit` of a limit order with its price, once it is acknowledged.
unfoldable pub execute :
    Arithmetic
    → SimulatedExecutionEngine
    → OrderRequest
    → String
    → String
    → Double
    → SimulatedExecutionEngine × ExecutionResult
execute A s r id client_id p =
    let accepted = make_update id client_id OrderStatus.acknowledged (pos 0) none in
    let part = A.times r.quantity (clamp_partial_fill_ratio s.config) in
    if is_partial s r
    then (
      record s {
        next_fill_id = inc_u64 s.next_fill_id;
        open_orders =
            emplaced id
              (record { request = r; client_order_id = client_id; filled_quantity = part })
              s.open_orders;
      },
      result id client_id
          (accepted ∷ make_update id client_id OrderStatus.partially_filled part none ∷ [])
          (sim_fill s.next_fill_id id r p part ∷ []),
    )
    else (
      record s { next_fill_id = inc_u64 s.next_fill_id },
      result id client_id
          (accepted ∷ make_update id client_id OrderStatus.filled r.quantity none ∷ [])
          (sim_fill s.next_fill_id id r p r.quantity ∷ []),
    )

abbrev pub sim_order_id : SimulatedExecutionEngine → String
sim_order_id s = "sim-order-" <> to_string s.next_order_id

abbrev pub sim_client_id : SimulatedExecutionEngine → String
sim_client_id s = "sim-client-" <> to_string s.next_client_order_id

abbrev pub with_ids : SimulatedExecutionEngine → SimulatedExecutionEngine
with_ids s = record s {
  next_order_id = inc_u64 s.next_order_id;
  next_client_order_id = inc_u64 s.next_client_order_id;
}

-- The request's price where the order is a limit order with a price and a positive quantity.
abbrev pub submit_checked :
    Arithmetic
    → SimulatedExecutionEngine
    → OrderRequest
    → String
    → String
    → Option Double
    → SimulatedExecutionEngine × ExecutionResult
submit_checked A s r id client_id none =
    (s, turned_down id client_id "invalid simulated order request")
submit_checked A s r id client_id (some p) =
    if leb_ℤ r.quantity (pos 0)
    then (s, turned_down id client_id "invalid simulated order request")
    else execute A s r id client_id p

unfoldable pub submit :
    Arithmetic
    → SimulatedExecutionEngine
    → OrderRequest
    → SimulatedExecutionEngine × ExecutionResult
unfolding execute
submit A s r = elim r.order_type [
  | OrderType.market ↦ (
    with_ids s,
    turned_down (sim_order_id s) (sim_client_id s)
        "market orders are not supported by the simulator",
  )
  | OrderType.limit ↦ submit_checked A (with_ids s) r (sim_order_id s) (sim_client_id s) r.price
]

-- `*request.price` of an open order: `submit` opens none without a price, and for a restored one without a
-- price, which the source reads past the value, it is 0.
unfoldable pub complete_open_order :
    SimulatedExecutionEngine → String → SimulatedExecutionEngine × ExecutionResult
complete_open_order s id = elim (lookup id s.open_orders) [
  | none ↦ (s, turned_down id "" "open order not found")
  | some o ↦ (
    record s { next_fill_id = inc_u64 s.next_fill_id; open_orders = erase id s.open_orders },
    result id o.client_order_id
        (make_update id o.client_order_id OrderStatus.filled o.request.quantity none ∷ [])
        (sim_fill s.next_fill_id id o.request (value_or o.request.price (pos 0))
            (o.request.quantity -ℤ o.filled_quantity)
          ∷ []),
  )
]

unfoldable pub cancel_open_order :
    SimulatedExecutionEngine → String → SimulatedExecutionEngine × ExecutionResult
cancel_open_order s id = elim (lookup id s.open_orders) [
  | none ↦ (s, turned_down id "" "open order not found")
  | some o ↦ (
    record s { open_orders = erase id s.open_orders },
    result id o.client_order_id
        (make_update id o.client_order_id OrderStatus.pending_cancel o.filled_quantity none
          ∷ make_update id o.client_order_id OrderStatus.canceled o.filled_quantity none
          ∷ [])
        [],
  )
]

unfoldable pub restore_open_order :
    SimulatedExecutionEngine → String → String → OrderRequest → Double → SimulatedExecutionEngine
restore_open_order s id client_id r q = record s {
  open_orders =
      insert id (record { request = r; client_order_id = client_id; filled_quantity = q })
        s.open_orders;
}
