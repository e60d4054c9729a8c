-- ===== src/Replay/Events.antt =====
-- An event that was written to the log of src/storage/replay_service.cpp is read back.
use wall.Core.{
  EngineEvent, MarketEvent, MarketEventType, TimerEvent, TransactionCommand, book_snapshot,
  market_event, ticker, timer, timer_event, trade, transaction_command,
}
use wall.Fields.Digits.{
  Fits, print_integer-IsField, print_integer-ne_nil, stoi-print_integer, stoll-print_integer,
}
use wall.Fields.Doubles.{
  DoubleText, IsNumeric, OptionSurvives, Survives, decode-encode_optional_double,
  encode_optional_double, encode_optional_double-IsField, stod-Survives,
}
use wall.Fields.Instruments.{
  WritableInstrument, instrument_fields, instrument_fields-IsField, instrument_of-fields,
  shown-IsField,
}
use wall.Fields.Integers.{int32_bound, int64_bound, print_integer, stoi}
use wall.Fields.Laws.{
  HasLast, IsField, Lacks, fields-Lacks_newline, fields-Lacks_tab, joined-Lacks, lacks,
  split_tsv-tab_separated, tag-IsField,
}
use wall.Prelude.{All, [], arith, refl, some, ◌∷◌, ◌≡◌, ◌⊳◌}
use wall.Prelude.Int.{pos}
use wall.Prelude.Text.{dec_str}
use wall.Replay.{
  command_fields, deserialize_event, deserialize_fields, deserialize_market, deserialize_timer,
  deserialize_transaction, encode_book_levels, event_fields, market_fields, market_of,
  market_type_index, market_type_of, serialize_event,
}
use wall.Replay.Levels.{WritableLevel, decode-encode_book_levels, encode_book_levels-IsField}

pub record WritableMarket (N : DoubleText) (e : MarketEvent) : Type 0 where
  pub id_field : IsField e.event_id
  pub instrument_writable : WritableInstrument N e.instrument
  pub price_survives : Survives N N.shown e.price
  pub quantity_survives : Survives N N.shown e.quantity
  pub bid_survives : OptionSurvives N e.bid_price
  pub ask_survives : OptionSurvives N e.ask_price
  pub bids_writable : All (WritableLevel N) e.bid_levels
  pub asks_writable : All (WritableLevel N) e.ask_levels
  pub exchange_fits : Fits int64_bound e.exchange_timestamp
  pub receive_fits : Fits int64_bound e.receive_timestamp
  pub process_fits : Fits int64_bound e.process_timestamp

pub record WritableCommand (N : DoubleText) (c : TransactionCommand) : Type 0 where
  pub id_field : IsField c.transaction_id
  pub user_field : IsField c.user_id
  pub account_field : IsField c.account_id
  pub type_field : IsField c.command_type
  pub symbol_field : IsField c.instrument_symbol
  pub topic_field : IsField c.kafka_topic
  pub quantity_survives : Survives N N.shown c.quantity
  pub price_survives : OptionSurvives N c.price
  pub partition_fits : Fits int32_bound c.kafka_partition
  pub offset_fits : Fits int64_bound c.kafka_offset

pub record WritableTimer (e : TimerEvent) : Type 0 where
  pub id_field : IsField e.timer_id
  pub timestamp_fits : Fits int64_bound e.timestamp

-- The texts hold no tab and no line end, and the numbers come back from their digits.
abbrev pub WritableEvent : DoubleText → EngineEvent → Type 0
WritableEvent N (market_event e) = WritableMarket N e
WritableEvent N (transaction_command c) = WritableCommand N c
WritableEvent N (timer_event e) = WritableTimer e

stoi-market_type_index :
    (t : MarketEventType) → stoi (print_integer (market_type_index t)) ≡ some (market_type_index t)
stoi-market_type_index book_snapshot = stoi-print_integer (pos 0) (omega arith)
stoi-market_type_index trade = stoi-print_integer (pos 1) (omega arith)
stoi-market_type_index ticker = stoi-print_integer (pos 2) (omega arith)
stoi-market_type_index timer = stoi-print_integer (pos 3) (omega arith)

market_type_of-index : (t : MarketEventType) → market_type_of (market_type_index t) ≡ some t
market_type_of-index book_snapshot = refl
market_type_of-index trade = refl
market_type_of-index ticker = refl
market_type_of-index timer = refl

deserialize_fields-market :
    (N : DoubleText) (e : MarketEvent)
    → IsNumeric N
    → WritableMarket N e
    → deserialize_fields N (market_fields N e) ≡ some (market_event e)
unfolding deserialize_fields deserialize_market market_of market_fields instrument_fields dec_str
deserialize_fields-market N e n w =
    rw
      (
        decode-encode_book_levels N e.bid_levels n w.bids_writable,
        decode-encode_book_levels N e.ask_levels n w.asks_writable,
        stoi-market_type_index e.event_type,
        market_type_of-index e.event_type,
        instrument_of-fields N e.instrument w.instrument_writable,
        stod-Survives N N.shown e.price w.price_survives,
        stod-Survives N N.shown e.quantity w.quantity_survives,
        decode-encode_optional_double N e.bid_price n w.bid_survives,
        decode-encode_optional_double N e.ask_price n w.ask_survives,
        stoll-print_integer e.exchange_timestamp w.exchange_fits,
        stoll-print_integer e.receive_timestamp w.receive_fits,
        stoll-print_integer e.process_timestamp w.process_fits,
      )
      refl

deserialize_fields-command :
    (N : DoubleText) (c : TransactionCommand)
    → IsNumeric N
    → WritableCommand N c
    → deserialize_fields N (command_fields N c) ≡ some (transaction_command c)
unfolding deserialize_fields deserialize_transaction command_fields dec_str
deserialize_fields-command N c n w =
    rw
      (
        stod-Survives N N.shown c.quantity w.quantity_survives,
        decode-encode_optional_double N c.price n w.price_survives,
        stoi-print_integer c.kafka_partition w.partition_fits,
        stoll-print_integer c.kafka_offset w.offset_fits,
      )
      refl

deserialize_fields-event :
    (N : DoubleText) (e : EngineEvent)
    → IsNumeric N
    → WritableEvent N e
    → deserialize_fields N (event_fields N e) ≡ some e
unfolding event_fields deserialize_fields deserialize_timer dec_str
deserialize_fields-event N (market_event e) n w = deserialize_fields-market N e n w
deserialize_fields-event N (transaction_command c) n w = deserialize_fields-command N c n w
deserialize_fields-event N (timer_event e) n w =
    rw (stoll-print_integer e.timestamp w.timestamp_fits) refl

event_fields-IsField :
    (N : DoubleText) (e : EngineEvent)
    → IsNumeric N
    → WritableEvent N e
    → All IsField (event_fields N e)
unfolding event_fields market_fields command_fields lacks
event_fields-IsField N (market_event e) n w =
    tag-IsField "market" refl refl
    ⊳ w.id_field
    ⊳ print_integer-IsField (market_type_index e.event_type)
    ⊳ instrument_fields-IsField N e.instrument
        (N.shown e.price
          ∷ N.shown e.quantity
          ∷ encode_optional_double N e.bid_price
          ∷ encode_optional_double N e.ask_price
          ∷ encode_book_levels N e.bid_levels
          ∷ encode_book_levels N e.ask_levels
          ∷ print_integer e.exchange_timestamp
          ∷ print_integer e.receive_timestamp
          ∷ print_integer e.process_timestamp
          ∷ [])
        n w.instrument_writable
        (shown-IsField N n e.price
          ⊳ shown-IsField N n e.quantity
          ⊳ encode_optional_double-IsField N e.bid_price n
          ⊳ encode_optional_double-IsField N e.ask_price n
          ⊳ encode_book_levels-IsField N e.bid_levels n
          ⊳ encode_book_levels-IsField N e.ask_levels n
          ⊳ print_integer-IsField e.exchange_timestamp
          ⊳ print_integer-IsField e.receive_timestamp
          ⊳ print_integer-IsField e.process_timestamp
          ⊳ tt)
event_fields-IsField N (transaction_command c) n w =
    tag-IsField "transaction" refl refl
    ⊳ w.id_field
    ⊳ w.user_field
    ⊳ w.account_field
    ⊳ w.type_field
    ⊳ w.symbol_field
    ⊳ shown-IsField N n c.quantity
    ⊳ encode_optional_double-IsField N c.price n
    ⊳ w.topic_field
    ⊳ print_integer-IsField c.kafka_partition
    ⊳ print_integer-IsField c.kafka_offset
    ⊳ tt
event_fields-IsField N (timer_event e) n w =
    tag-IsField "timer" refl refl ⊳ w.id_field ⊳ print_integer-IsField e.timestamp ⊳ tt

event_fields-HasLast : (N : DoubleText) (e : EngineEvent) → HasLast (event_fields N e)
unfolding event_fields market_fields command_fields instrument_fields
event_fields-HasLast N (market_event e) = print_integer-ne_nil e.process_timestamp
event_fields-HasLast N (transaction_command c) = print_integer-ne_nil c.kafka_offset
event_fields-HasLast N (timer_event e) = print_integer-ne_nil e.timestamp

-- An event is read back from its line: if its texts hold no tab and no line end, its integers fit the
-- types of the code, and its other numbers come back from the digits that are written of them.
pub deserialize-serialize_event :
    (N : DoubleText) (e : EngineEvent)
    → IsNumeric N
    → WritableEvent N e
    → deserialize_event N (serialize_event N e) ≡ some e
unfolding deserialize_event serialize_event
deserialize-serialize_event N e n w =
    rw
      (split_tsv-tab_separated (event_fields N e)
        (fields-Lacks_tab _ (event_fields-IsField N e n w)) (event_fields-HasLast N e))
      (deserialize_fields-event N e n w)

pub serialize_event-Lacks :
    (N : DoubleText) (e : EngineEvent)
    → IsNumeric N
    → WritableEvent N e
    → Lacks b'\n' (serialize_event N e)
unfolding serialize_event
serialize_event-Lacks N e n w =
    joined-Lacks b'\n' "\t" (event_fields N e) (refl, tt)
      (fields-Lacks_newline _ (event_fields-IsField N e n w))
