-- ===== src/FileStore/Enumerators.antt =====
-- The integers that stand for enumerators in the files of src/infrastructure/postgres_repositories.cpp.
use wall.Core.{
  OrderSide, OrderStatus, OrderType, acknowledged, buy, canceled, created, expired, filled, limit,
  market, partially_filled, pending_cancel, pending_submit, rejected, sell,
}
use wall.Fields.{◌>>=◌}
use wall.Fields.Digits.{Fits, stoi-print_integer}
use wall.Fields.Integers.{int32_bound, print_integer, stoi}
use wall.FileStore.{order_side, order_status, order_type_of, side_index, status_index, type_index}
use wall.Prelude.{Option, String, arith, refl, some, ◌≡◌}
use wall.Prelude.Int.{pos}

unfoldable pub read_side : String → Option OrderSide
read_side s = stoi s >>= order_side

unfoldable pub read_type : String → Option OrderType
read_type s = stoi s >>= order_type_of

unfoldable pub read_status : String → Option OrderStatus
unfolding order_status
read_status s = stoi s >>= order_status

pub read_side-side_index : (s : OrderSide) → read_side (print_integer (side_index s)) ≡ some s
unfolding read_side
read_side-side_index buy = rw (stoi-print_integer (pos 0) (omega arith)) refl
read_side-side_index sell = rw (stoi-print_integer (pos 1) (omega arith)) refl

pub read_type-type_index : (t : OrderType) → read_type (print_integer (type_index t)) ≡ some t
unfolding read_type
read_type-type_index market = rw (stoi-print_integer (pos 0) (omega arith)) refl
read_type-type_index limit = rw (stoi-print_integer (pos 1) (omega arith)) refl

status_index-Fits : (s : OrderStatus) → Fits int32_bound (status_index s)
status_index-Fits created = omega arith
status_index-Fits pending_submit = omega arith
status_index-Fits acknowledged = omega arith
status_index-Fits partially_filled = omega arith
status_index-Fits filled = omega arith
status_index-Fits pending_cancel = omega arith
status_index-Fits canceled = omega arith
status_index-Fits rejected = omega arith
status_index-Fits expired = omega arith

order_status-status_index : (s : OrderStatus) → order_status (status_index s) ≡ some s
unfolding order_status
order_status-status_index created = refl
order_status-status_index pending_submit = refl
order_status-status_index acknowledged = refl
order_status-status_index partially_filled = refl
order_status-status_index filled = refl
order_status-status_index pending_cancel = refl
order_status-status_index canceled = refl
order_status-status_index rejected = refl
order_status-status_index expired = refl

pub read_status-status_index :
    (s : OrderStatus) → read_status (print_integer (status_index s)) ≡ some s
unfolding read_status
read_status-status_index s =
    rw (stoi-print_integer (status_index s) (status_index-Fits s)) (order_status-status_index s)
