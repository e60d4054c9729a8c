-- ===== src/Simulator/Laws.antt =====
-- What src/execution/simulated_execution_engine.cpp fills.
use mathlib.Core.Path.{ap₂}
use wall.Core.{Double, FillEvent, OrderRequest}
use wall.Core.Arithmetic.{Arithmetic}
use wall.Portfolio.{opened}
use wall.Prelude.{
  Bool-cases, List, Option, Option-cases, String, [], ap, arith, false, inl, inr, none, some, true,
  ◌∙◌, ◌∷◌, ◌≡◌,
}
use wall.Prelude.Dict.{contains, insert, lookup, lookup-erase_self, lookup-insert_self}
use wall.Prelude.Int.{+ℤ_parts, eq_of_parts, leb_ℤ, pos, ℤ, ◌+ℤ◌, ◌-ℤ◌, -ℤ_parts}
use wall.Simulator.{
  OpenOrderState, SimulatedExecutionEngine, cancel_open_order, clamp_partial_fill_ratio,
  complete_open_order, execute, sim_client_id, sim_order_id, submit, submit_checked, turned_down,
  with_ids,
}

-- The sum of the quantities of fills.
abbrev pub filled_total : List FillEvent → Double
filled_total [] = pos 0
filled_total (f ∷ fs) = f.quantity +ℤ filled_total fs

abbrev partial_of : Arithmetic → SimulatedExecutionEngine → OrderRequest → Double
partial_of A s r = A.times r.quantity (clamp_partial_fill_ratio s.config)

abbrev open_state : Arithmetic → SimulatedExecutionEngine → OrderRequest → OpenOrderState
open_state A s r = record {
  request = r;
  client_order_id = sim_client_id s;
  filled_quantity = partial_of A s r;
}

execute-partial :
    (A : Arithmetic) (s : SimulatedExecutionEngine) (r : OrderRequest) (id client_id : String)
    (p : Double)
    → contains id s.open_orders ≡ false
    → contains id (execute A s r id client_id p).0.open_orders ≡ true
    → ((execute A s r id client_id p).0.open_orders
        ≡ insert id
            (record {
              request = r;
              client_order_id = client_id;
              filled_quantity = partial_of A s r;
            })
            s.open_orders)
      × (filled_total (execute A s r id client_id p).1.fills ≡ partial_of A s r +ℤ pos 0)
unfolding execute
execute-partial A s r id client_id p fresh h = ground arith

checked-partial :
    (A : Arithmetic) (s : SimulatedExecutionEngine) (r : OrderRequest) (id client_id : String)
    (price : Option Double)
    → contains id s.open_orders ≡ false
    → contains id (submit_checked A s r id client_id price).0.open_orders ≡ true
    → ((submit_checked A s r id client_id price).0.open_orders
        ≡ insert id
            (record {
              request = r;
              client_order_id = client_id;
              filled_quantity = partial_of A s r;
            })
            s.open_orders)
      × (filled_total (submit_checked A s r id client_id price).1.fills ≡ partial_of A s r +ℤ pos 0)
checked-partial A s r id client_id none fresh h = absurd (ground arith)
checked-partial A s r id client_id (some p) fresh h = elim (Bool-cases (leb_ℤ r.quantity (pos 0))) [
  | inl e ↦ absurd (ground arith)
  | inr e ↦ ground (arith, execute-partial A s r id client_id p fresh)
]

submit-partial :
    (A : Arithmetic) (s : SimulatedExecutionEngine) (r : OrderRequest)
    → contains (sim_order_id s) s.open_orders ≡ false
    → contains (sim_order_id s) (submit A s r).0.open_orders ≡ true
    → ((submit A s r).0.open_orders ≡ insert (sim_order_id s) (open_state A s r) s.open_orders)
      × (filled_total (submit A s r).1.fills ≡ partial_of A s r +ℤ pos 0)
unfolding submit
submit-partial A s r fresh h =
    ground
      (arith, checked-partial A (with_ids s) r (sim_order_id s) (sim_client_id s) r.price fresh)

complete-found :
    (s : SimulatedExecutionEngine) (id : String) (o : OpenOrderState)
    → lookup id s.open_orders ≡ some o
    → (filled_total (complete_open_order s id).1.fills
        ≡ (o.request.quantity -ℤ o.filled_quantity) +ℤ pos 0)
      × (lookup id (complete_open_order s id).0.open_orders ≡ none)
unfolding complete_open_order
complete-found s id o e = ground (arith, lookup-erase_self id s.open_orders)

remainder : (a q : ℤ) → (a +ℤ pos 0) +ℤ ((q -ℤ a) +ℤ pos 0) ≡ q
remainder a q = eq_of_parts ((a +ℤ pos 0) +ℤ ((q -ℤ a) +ℤ pos 0)) q (
    omega (
      arith,
      +ℤ_parts a (pos 0),
      -ℤ_parts q a,
      +ℤ_parts (q -ℤ a) (pos 0),
      +ℤ_parts (a +ℤ pos 0) ((q -ℤ a) +ℤ pos 0),
    ))

-- A submission under a fresh identifier that leaves the order open and then its completion fill
-- together the requested quantity, whatever the ratio is, and the order is then not open any
-- more.
pub complete-submit :
    (A : Arithmetic) (s : SimulatedExecutionEngine) (r : OrderRequest)
    → contains (sim_order_id s) s.open_orders ≡ false
    → contains (sim_order_id s) (submit A s r).0.open_orders ≡ true
    → (filled_total (submit A s r).1.fills
          +ℤ filled_total (complete_open_order (submit A s r).0 (sim_order_id s)).1.fills
        ≡ r.quantity)
      × (lookup
            (sim_order_id s)
            (complete_open_order (submit A s r).0 (sim_order_id s)).0.open_orders
          ≡ none)
complete-submit A s r fresh h =
    let (opened, first) = submit-partial A s r fresh h in
    let found =
      ap (lookup (sim_order_id s)) opened
      ∙ lookup-insert_self (sim_order_id s) (open_state A s r) s.open_orders in
    let (second, gone) =
      complete-found (submit A s r).0 (sim_order_id s) (open_state A s r) found in
    (ap₂ ◌+ℤ◌ first second ∙ remainder (partial_of A s r) r.quantity, gone)

-- Once `complete_open_order` or `cancel_open_order` was called for an identifier, with success or
-- not, both are rejected for it and fill nothing.
pub complete_and_cancel_once :
    (s : SimulatedExecutionEngine) (id : String)
    → ((complete_open_order (complete_open_order s id).0 id).1
        ≡ turned_down id "" "open order not found")
      × ((complete_open_order (cancel_open_order s id).0 id).1
          ≡ turned_down id "" "open order not found")
      × ((cancel_open_order (complete_open_order s id).0 id).1
          ≡ turned_down id "" "open order not found")
      × ((cancel_open_order (cancel_open_order s id).0 id).1
          ≡ turned_down id "" "open order not found")
unfolding complete_open_order cancel_open_order
complete_and_cancel_once s id = elim (Option-cases (lookup id s.open_orders)) [
  | inl e ↦ ground arith
  | inr (o, e) ↦ ground (arith, lookup-erase_self id s.open_orders)
]
