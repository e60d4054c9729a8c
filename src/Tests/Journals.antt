-- ===== src/Tests/Journals.antt =====
-- Orders and intents of src/infrastructure/postgres_repositories.cpp that are read again.
use wall.Core.{Double, OrderRecord, buy, limit, partially_filled}
use wall.Fields.Doubles.{OptionSurvives}
use wall.Fields.Laws.{lacks, tag-IsField}
use wall.FileStore.{Table, no_journal}
use wall.FileStore.Journals.{append_intent, open_intents}
use wall.FileStore.Journals.Intents.{WritableIntent, open_intents-priced}
use wall.FileStore.Orders.{
  Call, after, call, get_order, open_orders, save_order, save_order_update, saves, updates,
}
use wall.FileStore.Orders.Restart.{WritableOrder, open_orders-calls}
use wall.Prelude.{All, List, Option, String, [], foldl, none, refl, some, ◌∷◌, ◌≡◌, ◌⊳◌}
use wall.Prelude.Dict.{insert, lookup, modify, values}
use wall.Prelude.Int.{pos}
use wall.Prelude.Text.{dec_str}
use wall.Samples.{order_at, units}
use wall.Storage.{OrderIntentRecord}
use wall.Tests.Files.{lookup-All}
use wall.Tests.Numbers.{
  five-Survives, hundred-Survives, scientific-IsNumeric, scientific_text, zero-Survives,
}

abbrev order_calls : List Call
order_calls =
    saves (order_at buy 5 100) "order-1" "client-1"
    ∷ updates (record {
      order_id = "order-1";
      client_order_id = "client-1";
      status = partially_filled;
      filled_quantity = pos 0;
      reason = none;
    })
    ∷ []

abbrev orders_left : Table OrderRecord
orders_left = after scientific_text order_calls

orders_writable : All (WritableOrder scientific_text) (values orders_left.rows)
unfolding call save_order save_order_update wall.Storage.save_order wall.Storage.save_order_update
    insert lookup modify dec_str lacks
orders_writable =
    record {
      id_field = tag-IsField "order-1" refl refl;
      client_field = tag-IsField "client-1" refl refl;
      strategy_field = tag-IsField "strategy-1" refl refl;
      instrument_field = tag-IsField "BTC-USD" refl refl;
      quantity_survives = five-Survives;
      price_survives = hundred-Survives;
      filled_survives = zero-Survives;
    }
    ⊳ tt

open_orders-calls_example :
    (t' : Table OrderRecord) × (open_orders scientific_text orders_left.file ≡ some t')
    × ((id : String) → get_order t' id ≡ get_order orders_left id)
unfolding get_order
open_orders-calls_example =
    open_orders-calls scientific_text order_calls scientific-IsNumeric
      (λ id o. lookup-All (WritableOrder scientific_text) orders_left.rows id o orders_writable)

-- A limit order and a market order.
abbrev intent : Option Double → OrderIntentRecord
intent price = record {
  request_id = "request-1";
  strategy_id = "strategy-1";
  instrument_id = "BTC-USD";
  side = buy;
  order_type = limit;
  quantity = units 5;
  price = price;
}

abbrev intents : List OrderIntentRecord
intents = intent none ∷ intent (some (units 100)) ∷ []

intent-Writable :
    (price : Option Double)
    → OptionSurvives scientific_text price
    → WritableIntent scientific_text (intent price)
unfolding lacks
intent-Writable price h = record {
  id_field = tag-IsField "request-1" refl refl;
  strategy_field = tag-IsField "strategy-1" refl refl;
  instrument_field = tag-IsField "BTC-USD" refl refl;
  quantity_survives = five-Survives;
  price_survives = h;
}

open_intents-priced_example :
    open_intents scientific_text (foldl (append_intent scientific_text) no_journal intents).file
    ≡ some (record {
      rows = intent (some (units 100)) ∷ [];
      file = (foldl (append_intent scientific_text) no_journal intents).file;
    })
open_intents-priced_example =
    open_intents-priced scientific_text intents scientific-IsNumeric
      (intent-Writable none tt ⊳ intent-Writable (some (units 100)) hundred-Survives ⊳ tt)
