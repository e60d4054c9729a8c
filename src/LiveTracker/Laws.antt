-- ===== src/LiveTracker/Laws.antt =====
-- The protection of src/execution/live_execution_tracker.cpp against duplicates and stale reports.
use wall.Core.{Double, FillEvent, is_terminal}
use wall.LiveTracker.{
  ExecutionReport, LiveExecutionTracker, LocalOrderState, ReconciliationResult, same_status,
  should_apply_status, should_ignore_as_stale,
}
use wall.LiveTracker.Reports.{
  apply_fresh, apply_report, duplicate, fill_delta, marked, new_cumulative, reconcile, stale,
  stored,
}
use wall.Prelude.{
  Bool-cases, List, Option, Option-cases, String, [], ap, arith, false, inl, inr, ite, not, refl,
  some, some_inj, subst, sym, true, ℕ, ◌&&◌, ◌++◌, ◌∙◌, ◌∷◌, ◌≡◌, ◌≢◌, ◌⊎◌,
}
use wall.Prelude.Dict.{contains, lookup, lookup-insert_ne, lookup-insert_self}
use wall.Prelude.Int.{+ℤ_assoc, +ℤ_parts, +ℤ_zero, eq_of_parts, pos, ◌+ℤ◌, ◌≤ℤ◌, -ℤ_parts}
use wall.Prelude.Text.{dec_str, is_empty}

apply_report-marks :
    (t : LiveExecutionTracker) (r : ExecutionReport)
    → is_empty r.report_id ≡ false
    → contains r.report_id (apply_report t r).0.processed_report_ids ≡ true
unfolding apply_report
apply_report-marks t r h = ground (arith, lookup-insert_self r.report_id tt t.processed_report_ids)

duplicate_ignored :
    (t : LiveExecutionTracker) (r : ExecutionReport)
    → is_empty r.report_id ≡ false
    → contains r.report_id t.processed_report_ids ≡ true
    → apply_report t r ≡ (t, duplicate)
unfolding apply_report
duplicate_ignored t r h c = ground arith

-- A report that carries an identifier changes the tracker once: whatever it did, the same report
-- is then a duplicate, and the tracker stays as it is.
pub apply_report_again :
    (t : LiveExecutionTracker) (r : ExecutionReport)
    → is_empty r.report_id ≡ false
    → apply_report (apply_report t r).0 r ≡ ((apply_report t r).0, duplicate)
apply_report_again t r h = duplicate_ignored (apply_report t r).0 r h (apply_report-marks t r h)

-- The sum of the quantities of the fills of an order.
abbrev pub fills_of : String → List FillEvent → Double
fills_of k [] = pos 0
fills_of k (f ∷ fs) =
    let rest = fills_of k fs in ite (dec_str k f.order_id) (f.quantity +ℤ rest) rest

apply_fresh-filled_quantity :
    (o : LocalOrderState) (r : ExecutionReport) (n : ℕ)
    → (apply_fresh o r n).0.filled_quantity
      ≡ o.filled_quantity +ℤ fills_of r.order_id (apply_fresh o r n).2.fills
unfolding apply_fresh should_apply_status same_status
apply_fresh-filled_quantity o r n = ground (
  arith,
  -ℤ_parts (new_cumulative o r) o.filled_quantity,
  +ℤ_parts (fill_delta o r) (pos 0),
  +ℤ_parts o.filled_quantity (fill_delta o r +ℤ pos 0),
  +ℤ_parts o.filled_quantity (pos 0),
)

apply_fresh-grows :
    (o : LocalOrderState) (r : ExecutionReport) (n : ℕ)
    → o.filled_quantity ≤ℤ (apply_fresh o r n).0.filled_quantity
unfolding apply_fresh should_apply_status same_status
apply_fresh-grows o r n = ground arith

apply_fresh-status :
    (o : LocalOrderState) (r : ExecutionReport) (n : ℕ)
    → is_terminal o.status ≡ true
    → (apply_fresh o r n).0.filled_quantity ≡ o.filled_quantity
    → (apply_fresh o r n).0.status ≡ o.status
unfolding apply_fresh should_apply_status
apply_fresh-status o r n = ground (arith, -ℤ_parts (new_cumulative o r) o.filled_quantity)

-- The order `o` became `o'` while the fills `fs` were emitted for it: they make up the growth of its
-- filled quantity, which is not negative, and a terminal status is left only when there is one.
abbrev pub Applied : String → LocalOrderState → LocalOrderState → List FillEvent → Type 0
Applied k o o' fs =
    (o'.filled_quantity ≡ o.filled_quantity +ℤ fills_of k fs)
    × (o.filled_quantity ≤ℤ o'.filled_quantity)
    × (is_terminal o.status ≡ true → o'.filled_quantity ≡ o.filled_quantity → o'.status ≡ o.status)

abbrev pub KeptOrder : String → LocalOrderState → LiveExecutionTracker → List FillEvent → Type 0
KeptOrder k o t' fs = (o' : LocalOrderState) × (lookup k t'.orders ≡ some o') × Applied k o o' fs

-- The order of a report that emitted no fill for it.
unchanged :
    (t' : LiveExecutionTracker) (k : String) (o : LocalOrderState) (fs : List FillEvent)
    → lookup k t'.orders ≡ some o
    → fills_of k fs ≡ pos 0
    → KeptOrder k o t' fs
unchanged t' k o fs e z = (
  o,
  e,
  (+ℤ_zero o.filled_quantity ∙ ap (λ q. o.filled_quantity +ℤ q) (sym z), omega arith, λ _ _. refl),
)

fresh-no_fills :
    (o : LocalOrderState) (r : ExecutionReport) (n : ℕ) (k : String)
    → k ≢ r.order_id
    → fills_of k (apply_fresh o r n).2.fills ≡ pos 0
unfolding apply_fresh
fresh-no_fills o r n k h = ground arith

-- `apply_report` of a report that is neither stale nor of an unknown order.
abbrev result_of :
    LiveExecutionTracker
    → ExecutionReport
    → LocalOrderState
    → LiveExecutionTracker × ReconciliationResult
result_of t r i = stored t r.order_id (apply_fresh i r t.next_fill_id)

named_order :
    (t : LiveExecutionTracker) (r : ExecutionReport) (i : LocalOrderState)
    → KeptOrder r.order_id i (result_of t r i).0 (result_of t r i).1.fills
named_order t r i = (
  (apply_fresh i r t.next_fill_id).0,
  lookup-insert_self r.order_id (apply_fresh i r t.next_fill_id).0 t.orders,
  (
    apply_fresh-filled_quantity i r t.next_fill_id,
    apply_fresh-grows i r t.next_fill_id,
    apply_fresh-status i r t.next_fill_id,
  ),
)

result_of-KeptOrder :
    (t : LiveExecutionTracker) (r : ExecutionReport) (k : String) (i o : LocalOrderState)
    → lookup r.order_id t.orders ≡ some i
    → lookup k t.orders ≡ some o
    → KeptOrder k o (result_of t r i).0 (result_of t r i).1.fills
result_of-KeptOrder t r k i o ei eo = elim (dec_str k r.order_id) [
  | yes p ↦
      subst (λ x. KeptOrder x o (result_of t r i).0 (result_of t r i).1.fills) (sym p)
        (subst (λ x. KeptOrder r.order_id x (result_of t r i).0 (result_of t r i).1.fills)
          (some_inj (sym ei ∙ ap (λ x. lookup x t.orders) (sym p) ∙ eo)) (named_order t r i))
  | no ne ↦
      unchanged (result_of t r i).0 k o (result_of t r i).1.fills
        (lookup-insert_ne k r.order_id (apply_fresh i r t.next_fill_id).0 t.orders ne ∙ eo)
        (fresh-no_fills i r t.next_fill_id k ne)
]

marked-orders : (t : LiveExecutionTracker) (r : ExecutionReport) → (marked t r).orders ≡ t.orders
marked-orders t r = ground arith

-- The three ways of `apply_report`: a duplicate, a report that is stale or of an unknown order, and
-- one that reaches its order.
abbrev ReportCase :
    LiveExecutionTracker → ExecutionReport → LiveExecutionTracker × ReconciliationResult → Type 0
ReportCase t r out =
    (out ≡ (t, duplicate))
    ⊎ (out ≡ (marked t r, stale))
    ⊎ ((i : LocalOrderState) × (lookup r.order_id t.orders ≡ some i)
        × (out ≡ result_of (marked t r) r i))

report_cases : (t : LiveExecutionTracker) (r : ExecutionReport) → ReportCase t r (apply_report t r)
unfolding apply_report
report_cases t r =
    elim (Bool-cases (not (is_empty r.report_id) && contains r.report_id t.processed_report_ids)) [
      | inl d ↦ inl (ground arith)
      | inr d ↦ elim (Option-cases (lookup r.order_id t.orders)) [
        | inl e ↦ inr (inl (ground arith))
        | inr (i, e) ↦ elim (Bool-cases (should_ignore_as_stale i r)) [
          | inl s ↦ inr (inl (ground arith))
          | inr s ↦ inr (inr (i, e, ground arith))
        ]
      ]
    ]

-- `apply_report` keeps every order that the tracker holds: its filled quantity grows by the sum of the
-- fills that the call emits for it, and does not shrink, and its status leaves a terminal one only
-- when the filled quantity grows.
pub apply_report-KeptOrder :
    (t : LiveExecutionTracker) (r : ExecutionReport) (k : String) (o : LocalOrderState)
    → lookup k t.orders ≡ some o
    → KeptOrder k o (apply_report t r).0 (apply_report t r).1.fills
apply_report-KeptOrder t r k o e = elim (report_cases t r) [
  | inl c ↦ subst Kept (sym c) (unchanged t k o [] e refl)
  | inr (inl c) ↦ subst Kept (sym c) (unchanged (marked t r) k o [] (held k e) refl)
  | inr (inr (i, ei, c)) ↦
      subst Kept (sym c) (result_of-KeptOrder (marked t r) r k i o (held r.order_id ei) (held k e))
]
  where
    Kept : LiveExecutionTracker × ReconciliationResult → Type 0
    Kept out = KeptOrder k o out.0 out.1.fills

    held :
        (j : String) {x : Option LocalOrderState}
        → lookup j t.orders ≡ x
        → lookup j (marked t r).orders ≡ x
    held j h = ap (lookup j) (marked-orders t r) ∙ h

-- The fills of all the results of `reconcile`, in their order.
abbrev pub all_fills : List ReconciliationResult → List FillEvent
all_fills [] = []
all_fills (x ∷ xs) = x.fills ++ all_fills xs

fills_of-append :
    (k : String) (fs gs : List FillEvent) → fills_of k (fs ++ gs) ≡ fills_of k fs +ℤ fills_of k gs
fills_of-append k [] gs =
    ground (
      arith,
      +ℤ_parts (pos 0) (fills_of k gs),
      eq_of_parts (fills_of k gs) (pos 0 +ℤ fills_of k gs),
    )
fills_of-append k (f ∷ fs) gs =
    ground (arith, fills_of-append k fs gs, +ℤ_assoc f.quantity (fills_of k fs) (fills_of k gs))

-- Whatever reports arrive, repeated or out of order, the filled quantity of an order that the
-- tracker holds grows by exactly the quantities of the fills that `reconcile` emits for it, and it
-- never shrinks.
pub reconcile-filled_quantity :
    (rs : List ExecutionReport) (t : LiveExecutionTracker) (k : String) (o : LocalOrderState)
    → lookup k t.orders ≡ some o
    → (o' : LocalOrderState) × (lookup k (reconcile t rs).0.orders ≡ some o')
      × (o'.filled_quantity ≡ o.filled_quantity +ℤ fills_of k (all_fills (reconcile t rs).1))
      × (o.filled_quantity ≤ℤ o'.filled_quantity)
unfolding reconcile
reconcile-filled_quantity [] t k o e = (o, e, +ℤ_zero o.filled_quantity, omega arith)
reconcile-filled_quantity (r ∷ rs) t k o e =
    let (o1, e1, (q1, l1, _)) = apply_report-KeptOrder t r k o e in
    let (o2, e2, q2, l2) = reconcile-filled_quantity rs (apply_report t r).0 k o1 e1 in
    (
      o2,
      e2,
      q2
          ∙ ap (λ q. q +ℤ later) q1
          ∙ +ℤ_assoc o.filled_quantity (fills_of k now) later
          ∙ ap (λ q. o.filled_quantity +ℤ q)
              (sym (fills_of-append k now (all_fills (reconcile (apply_report t r).0 rs).1))),
      omega (arith, l1, l2),
    )
  where
    now : List FillEvent
    now = (apply_report t r).1.fills

    later : Double
    later = fills_of k (all_fills (reconcile (apply_report t r).0 rs).1)
