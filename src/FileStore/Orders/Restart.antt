-- ===== src/FileStore/Orders/Restart.antt =====
-- The orders of src/infrastructure/postgres_repositories.cpp survive a restart.
use wall.Storage.{save_order_update as update_saved}
use wall.Core.{OrderRecord, OrderUpdate}
use wall.Fields.Digits.{print_integer-IsField}
use wall.Fields.Doubles.{
  DoubleText, IsNumeric, OptionSurvives, Survives, Survives-ne_nil, decode-encode_optional_double,
  encode_optional_double-IsField, stod-Survives,
}
use wall.Fields.Instruments.{shown-IsField}
use wall.Fields.Laws.{IsField}
use wall.FileStore.{Table, side_index, status_index, type_index}
use wall.FileStore.Enumerators.{
  read_side-side_index, read_status-status_index, read_type-type_index,
}
use wall.FileStore.Orders.{
  Call, after, call, get_order, open_orders, order_fields, order_of, orders, saves, updates,
}
use wall.FileStore.Reload.{Storable}
use wall.FileStore.Reopen.{
  IsKeyedBy, IsSaved, calls-IsSaved, modify-IsKeyedBy, open_table-IsSaved, saved-IsSaved,
  stored-IsKeyedBy,
}
use wall.Prelude.{List, Option-cases, String, inl, inr, refl, some, ◌≡◌, ◌⊳◌}
use wall.Prelude.Dict.{Dict, lookup}
use wall.Storage.{record_of_update, with_update}

-- An order whose texts stand between tabs and whose numbers come back from what is shown of them.
pub record WritableOrder (N : DoubleText) (o : OrderRecord) : Type 0 where
  pub id_field : IsField o.order_id
  pub client_field : IsField o.client_order_id
  pub strategy_field : IsField o.strategy_id
  pub instrument_field : IsField o.instrument_id
  pub quantity_survives : Survives N N.shown o.quantity
  pub price_survives : OptionSurvives N o.price
  pub filled_survives : Survives N N.shown o.filled_quantity

order_of-order_fields :
    (N : DoubleText) (o : OrderRecord)
    → IsNumeric N
    → WritableOrder N o
    → order_of N (order_fields N o) ≡ some o
unfolding order_of order_fields
order_of-order_fields N o n w =
    rw
      (
        read_side-side_index o.side,
        read_type-type_index o.order_type,
        read_status-status_index o.status,
        stod-Survives N N.shown o.quantity w.quantity_survives,
        decode-encode_optional_double N o.price n w.price_survives,
        stod-Survives N N.shown o.filled_quantity w.filled_survives,
      )
      refl

WritableOrder-Storable :
    (N : DoubleText) (o : OrderRecord)
    → IsNumeric N
    → WritableOrder N o
    → Storable 10 (order_of N) (order_fields N) o
unfolding order_fields
WritableOrder-Storable N o n w = record {
  fields =
      w.id_field
      ⊳ w.client_field
      ⊳ w.strategy_field
      ⊳ w.instrument_field
      ⊳ print_integer-IsField (side_index o.side)
      ⊳ print_integer-IsField (type_index o.order_type)
      ⊳ print_integer-IsField (status_index o.status)
      ⊳ shown-IsField N n o.quantity
      ⊳ encode_optional_double-IsField N o.price n
      ⊳ shown-IsField N n o.filled_quantity
      ⊳ tt;
  last = Survives-ne_nil N N.shown o.filled_quantity n w.filled_survives;
  width_is = refl;
  read = order_of-order_fields N o n w;
}

update-IsKeyedBy :
    (N : DoubleText) (d : Dict OrderRecord) (u : OrderUpdate)
    → IsKeyedBy (orders N) d
    → IsKeyedBy (orders N) (update_saved d u)
unfolding wall.Storage.save_order_update
update-IsKeyedBy N d u h = elim (Option-cases (lookup u.order_id d)) [
  | inl e ↦ rw (update_saved, e) (stored-IsKeyedBy (orders N) d (record_of_update u) h)
  | inr (o, e) ↦
      rw (update_saved, e) (modify-IsKeyedBy (orders N) d u.order_id (with_update u) (λ y. refl) h)
]

call-IsSaved :
    (N : DoubleText) (t : Table OrderRecord) (c : Call)
    → IsSaved (orders N) t
    → IsSaved (orders N) (call N t c)
unfolding call wall.Storage.save_order
call-IsSaved N t (saves r id client_id) h =
    saved-IsSaved (orders N) _ (stored-IsKeyedBy (orders N) t.rows _ h.keyed)
call-IsSaved N t (updates u) h = saved-IsSaved (orders N) _ (update-IsKeyedBy N t.rows u h.keyed)

-- Every order can be written.
abbrev pub IsWritable : DoubleText → Table OrderRecord → Type 0
IsWritable N t = (id : String) (o : OrderRecord) → get_order t id ≡ some o → WritableOrder N o

-- After any calls on an order repository in an empty directory, one that is opened on the file that
-- it left finds each order as it stood: if the texts of the orders hold no tab and no line end, and
-- their quantities and prices come back from the digits that are written of them.
pub open_orders-calls :
    (N : DoubleText) (cs : List Call)
    → IsNumeric N
    → IsWritable N (after N cs)
    → (t' : Table OrderRecord) × (open_orders N (after N cs).file ≡ some t')
      × ((id : String) → get_order t' id ≡ get_order (after N cs) id)
unfolding open_orders get_order
open_orders-calls N cs n w =
    open_table-IsSaved (orders N) (after N cs)
      (calls-IsSaved (orders N) (call N) (call-IsSaved N) cs)
      (λ id o e. WritableOrder-Storable N o n (w id o e))
