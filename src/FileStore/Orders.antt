-- ===== src/FileStore/Orders.antt =====
-- `PostgresOrderRepository` of src/infrastructure/postgres_repositories.cpp.
pub mod Restart
use wall.Storage.{
  save_order as order_saved, save_order_update as update_saved, all_open_orders as open_orders_of,
}
use wall.Core.{OrderRecord, OrderRequest, OrderUpdate}
use wall.Fields.{◌>>=◌}
use wall.Fields.Doubles.{DoubleText, decode_optional_double, encode_optional_double, stod}
use wall.Fields.Integers.{print_integer}
use wall.FileStore.{
  File, Format, Table, no_table, open_table, saved, side_index, status_index, type_index,
}
use wall.FileStore.Enumerators.{read_side, read_status, read_type}
use wall.Prelude.{List, Option, String, [], foldl, none, some, ◌∷◌}
use wall.Prelude.Dict.{lookup}

unfoldable pub order_fields : DoubleText → OrderRecord → List String
unfolding encode_optional_double
order_fields N o =
    o.order_id
    ∷ o.client_order_id
    ∷ o.strategy_id
    ∷ o.instrument_id
    ∷ print_integer (side_index o.side)
    ∷ print_integer (type_index o.order_type)
    ∷ print_integer (status_index o.status)
    ∷ N.shown o.quantity
    ∷ encode_optional_double N o.price
    ∷ N.shown o.filled_quantity
    ∷ []

-- The body of the loop of `load`, on a line of ten fields.
unfoldable pub order_of : DoubleText → List String → Option OrderRecord
unfolding stod decode_optional_double read_side read_type read_status
order_of N
      (id ∷ client_id ∷ strategy ∷ instrument ∷ side ∷ type ∷ status ∷ quantity ∷ price ∷ done
        ∷ []) =
    do
      s ← read_side side
      t ← read_type type
      st ← read_status status
      q ← stod N quantity
      p ← decode_optional_double N price
      f ← stod N done
      some (record {
        order_id = id;
        client_order_id = client_id;
        strategy_id = strategy;
        instrument_id = instrument;
        side = s;
        order_type = t;
        status = st;
        quantity = q;
        price = p;
        filled_quantity = f;
      })
order_of N _ = none

abbrev pub orders : DoubleText → Format OrderRecord
orders N = record {
  width = 10;
  record_of = order_of N;
  fields_of = order_fields N;
  key = λ (o : OrderRecord). o.order_id;
}

-- The constructor, on the file that is there; `none` is an exception.
unfoldable pub open_orders : DoubleText → File → Option (Table OrderRecord)
unfolding open_table
open_orders N file = open_table (orders N) file

unfoldable pub save_order :
    DoubleText → Table OrderRecord → OrderRequest → String → String → Table OrderRecord
save_order N t r id client_id = saved (orders N) (order_saved t.rows r id client_id)

unfoldable pub save_order_update : DoubleText → Table OrderRecord → OrderUpdate → Table OrderRecord
save_order_update N t u = saved (orders N) (update_saved t.rows u)

unfoldable pub get_order : Table OrderRecord → String → Option OrderRecord
get_order t id = lookup id t.rows

unfoldable pub all_open_orders : Table OrderRecord → List OrderRecord
all_open_orders t = open_orders_of t.rows

-- The calls that change the repository.
pub data Call : Type 0 where
  saves : OrderRequest → String → String → Call
  updates : OrderUpdate → Call

unfoldable pub call : DoubleText → Table OrderRecord → Call → Table OrderRecord
unfolding save_order save_order_update
call N t (saves r id client_id) = save_order N t r id client_id
call N t (updates u) = save_order_update N t u

-- The repository after calls on a new one.
abbrev pub after : DoubleText → List Call → Table OrderRecord
after N cs = foldl (call N) no_table cs
