-- ===== src/Storage/Laws.antt =====
-- What the in-memory order and transaction stores of src/storage/storage_interfaces.cpp keep.
use wall.Core.{Int64, OrderRecord, OrderStatus, OrderUpdate, is_terminal}
use wall.Prelude.{
  Bool-cases, List, Option, Option-cases, String, [], ap, arith, false, if◌then◌else◌, inl, inr,
  ite, none, not, refl, some, ◌∷◌, ◌≡◌,
}
use wall.Prelude.Dict.{Dict, lookup, lookup-insert, lookup-modify, values}
use wall.Prelude.Int.{eqb_ℤ}
use wall.Prelude.Text.{dec_str}
use wall.Storage.{
  KafkaCheckpoint, TransactionRepository, all_open_orders, checkpoint_in, get_order, is_open,
  record_of_update, same_partition, save_checkpoint, save_order_update, with_update,
}

-- The record that an update leaves for its order.
abbrev pub updated_record : OrderUpdate → Option OrderRecord → OrderRecord
updated_record u none = record_of_update u
updated_record u (some o) = with_update u o

-- After an update the order's record has the update's client identifier, status and filled quantity,
-- and the fields of its request if it was stored before, and every other order is as it was.
pub get_order-save_order_update :
    (d : Dict OrderRecord) (u : OrderUpdate) (k : String)
    → get_order (save_order_update d u) k
      ≡ ite
          (dec_str k u.order_id)
          (some (updated_record u (get_order d u.order_id)))
          (get_order d k)
unfolding get_order save_order_update
get_order-save_order_update d u k = elim (Option-cases (lookup u.order_id d)) [
  | inl e ↦ ground (arith, lookup-insert k u.order_id (record_of_update u) d)
  | inr (o, e) ↦ elim (dec_str k u.order_id) [
    | yes p ↦ ground (arith, lookup-modify k u.order_id (with_update u) d, ap (λ j. lookup j d) p)
    | no ne ↦ ground (arith, lookup-modify k u.order_id (with_update u) d)
  ]
]

-- The orders that recovery loads are those whose status is not terminal.
abbrev pub live : List OrderRecord → List OrderRecord
live [] = []
live (o ∷ os) = let rest = live os in if is_terminal o.status then rest else o ∷ rest

is_open-not_terminal : (s : OrderStatus) → is_open s ≡ not (is_terminal s)
is_open-not_terminal s = ground arith

-- `all_open_orders` returns exactly the stored records whose status is not one of the four that the
-- execution parts call terminal, in the map's order.
pub all_open_orders-live : (d : Dict OrderRecord) → all_open_orders d ≡ live (values d)
unfolding all_open_orders
all_open_orders-live [] = refl
all_open_orders-live ((k, o) ∷ d) =
    ground (arith, all_open_orders-live d, is_open-not_terminal o.status)

-- The offset of the first checkpoint of a topic's partition.
abbrev pub offset_for : String → Int64 → List KafkaCheckpoint → Option Int64
offset_for t p [] = none
offset_for t p (x ∷ xs) =
    let rest = offset_for t p xs in
    if ite (dec_str x.topic t) (eqb_ℤ x.partition p) false then some x.offset else rest

-- A saved checkpoint is the one that its partition has, and the other partitions keep theirs.
pub offset_for-save_checkpoint :
    (s : TransactionRepository) (c : KafkaCheckpoint) (t : String) (p : Int64)
    → offset_for t p (save_checkpoint s c).checkpoints ≡ (
        if ite (dec_str c.topic t) (eqb_ℤ c.partition p) false
        then some c.offset
        else offset_for t p s.checkpoints)
unfolding save_checkpoint
offset_for-save_checkpoint s c t p = in_list s.checkpoints
  where
    in_list :
        (xs : List KafkaCheckpoint)
        → offset_for t p (checkpoint_in c xs) ≡ (
            if ite (dec_str c.topic t) (eqb_ℤ c.partition p) false
            then some c.offset
            else offset_for t p xs)
    in_list [] = refl
    in_list (x ∷ xs) = elim (Bool-cases (same_partition x c)) [
      | inl e ↦ ground arith
      | inr e ↦ ground (arith, in_list xs)
    ]
