-- ===== src/Tests/Messages.antt =====
-- Transactions as messages and events in the log, of src/infrastructure/kafka_transaction_consumer.cpp and
-- src/storage/replay_service.cpp.
use wall.Core.{
  BookLevel, EngineEvent, TransactionCommand, market_event, timer_event, transaction_command,
}
use wall.Fields.Instruments.{WritableInstrument}
use wall.Fields.Laws.{lacks, lacks-Lacks, tag-IsField}
use wall.Messages.{Client, parse_raw_message, poll_messages, serialize_transaction_command_payload}
use wall.Messages.Payloads.{Publishable, message_of, parse-serialize_transaction_command_payload}
use wall.Messages.Polling.{Polled, poll_messages-Polled}
use wall.Prelude.{All, List, [], arith, foldl, none, refl, some, ◌∷◌, ◌≡◌, ◌⊳◌}
use wall.Prelude.Int.{pos}
use wall.Replay.{append_event, replay}
use wall.Replay.Events.{WritableEvent}
use wall.Replay.Log.{replay-append_event}
use wall.Samples.{btc, command_of, quote_at, units}
use wall.Tests.Numbers.{
  five-Survives, hundred-Survives, scientific-IsNumeric, scientific_text, zero-Survives,
}

abbrev pub transaction : TransactionCommand
transaction = command_of "transaction-1" 5

transaction-Publishable : Publishable scientific_text transaction
unfolding lacks
transaction-Publishable = record {
  id_lacks = lacks-Lacks b';' "transaction-1" refl;
  user_lacks = lacks-Lacks b';' "user-1" refl;
  account_lacks = lacks-Lacks b';' "account-1" refl;
  type_lacks = lacks-Lacks b';' "order" refl;
  symbol_lacks = lacks-Lacks b';' "BTCUSD" refl;
  quantity_survives = five-Survives;
  price_survives = λ p e. absurd (cc);
}

parse-serialize_transaction_command_payload_example :
    parse_raw_message scientific_text
      (message_of transaction (serialize_transaction_command_payload scientific_text transaction))
    ≡ some transaction
parse-serialize_transaction_command_payload_example =
    parse-serialize_transaction_command_payload scientific_text transaction scientific-IsNumeric
      transaction-Publishable

-- A message of another topic, one that is no transaction, and one that is.
abbrev client : Client
client = record {
  queue =
      record { topic = "audit"; partition = pos 0; offset = pos 1; payload = "" }
      ∷ record { topic = "transactions"; partition = pos 0; offset = pos 2; payload = "user_id" }
      ∷ message_of transaction (serialize_transaction_command_payload scientific_text transaction)
      ∷ [];
  commits = [];
}

poll_messages-Polled_example :
    Polled scientific_text "transactions" client
      (poll_messages scientific_text "transactions" client).0
      (poll_messages scientific_text "transactions" client).1
poll_messages-Polled_example = poll_messages-Polled scientific_text "transactions" client

abbrev level : BookLevel
level = record { price = units 100; quantity = units 5 }

abbrev pub logged : List EngineEvent
logged =
    timer_event (record { timer_id = "timer-1"; timestamp = pos 1500 })
    ∷ market_event (quote_at 5 100)
    ∷ transaction_command transaction
    ∷ []

btc-Writable : WritableInstrument scientific_text btc
unfolding lacks
btc-Writable = record {
  id_field = tag-IsField "BTC-USD" refl refl;
  exchange_field = tag-IsField "sim" refl refl;
  symbol_field = tag-IsField "BTCUSD" refl refl;
  base_field = tag-IsField "BTC" refl refl;
  quote_field = tag-IsField "USD" refl refl;
  tick_survives = zero-Survives;
  lot_survives = zero-Survives;
}

pub logged-Writable : All (WritableEvent scientific_text) logged
unfolding lacks
logged-Writable =
    record { id_field = tag-IsField "timer-1" refl refl; timestamp_fits = omega arith }
    ⊳ record {
      id_field = tag-IsField "event-1" refl refl;
      instrument_writable = btc-Writable;
      price_survives = hundred-Survives;
      quantity_survives = five-Survives;
      bid_survives = tt;
      ask_survives = tt;
      bids_writable = tt;
      asks_writable =
          record { price_survives = hundred-Survives; quantity_survives = five-Survives } ⊳ tt;
      exchange_fits = omega arith;
      receive_fits = omega arith;
      process_fits = omega arith;
    }
    ⊳ record {
      id_field = tag-IsField "transaction-1" refl refl;
      user_field = tag-IsField "user-1" refl refl;
      account_field = tag-IsField "account-1" refl refl;
      type_field = tag-IsField "order" refl refl;
      symbol_field = tag-IsField "BTCUSD" refl refl;
      topic_field = tag-IsField "transactions" refl refl;
      quantity_survives = five-Survives;
      price_survives = tt;
      partition_fits = omega arith;
      offset_fits = omega arith;
    }
    ⊳ tt

replay-append_event_example :
    replay scientific_text (foldl (append_event scientific_text) none logged)
    ≡ (record { total_records = 3; replayed_records = 3; skipped_records = 0 }, logged)
replay-append_event_example =
    replay-append_event scientific_text logged scientific-IsNumeric logged-Writable (omega arith)
