-- ===== src/Replay.antt =====
-- src/storage/replay_service.cpp: the event log, a line for each event, and its replay.
pub mod Levels
pub mod Events
pub mod Log
use Prim.Native.String.{◌++◌ as ◌<>◌}
use wall.Core.{
  BookLevel, EngineEvent, MarketEvent, MarketEventType, TransactionCommand, book_snapshot,
  market_event, ticker, timer, timer_event, trade, transaction_command,
}
use wall.Fields.{cut_at, joined, lines_of, split_on, split_tsv, tab_separated, ◌>>=◌}
use wall.Fields.Doubles.{DoubleText, decode_optional_double, encode_optional_double, stod}
use wall.Fields.Instruments.{instrument_fields, instrument_of}
use wall.Fields.Integers.{print_integer, stoi, stoll}
use wall.FileStore.{File}
use wall.Prelude.{
  List, Option, String, [], if◌then◌else◌, inc_u64, ite, map, none, some, suc, zero, ℕ, ◌++◌, ◌∷◌,
}
use wall.Prelude.Int.{pos, ℤ}
use wall.Prelude.Text.{dec_str, is_empty}

abbrev pub market_type_index : MarketEventType → ℤ
market_type_index book_snapshot = pos 0
market_type_index trade = pos 1
market_type_index ticker = pos 2
market_type_index timer = pos 3

-- An integer that names no enumerator, which `static_cast` would let pass, is refused here.
abbrev pub market_type_of : ℤ → Option MarketEventType
market_type_of (pos zero) = some book_snapshot
market_type_of (pos (suc zero)) = some trade
market_type_of (pos (suc (suc zero))) = some ticker
market_type_of (pos (suc (suc (suc zero)))) = some timer
market_type_of _ = none

unfoldable pub encode_level : DoubleText → BookLevel → String
encode_level N l = N.shown l.price <> (":" <> N.shown l.quantity)

unfoldable pub encode_book_levels : DoubleText → List BookLevel → String
unfolding joined encode_level
encode_book_levels N ls = joined "," (map (encode_level N) ls)

-- The body of the loop of `decode_book_levels`: `none` without a colon, or where `std::stod` throws.
unfoldable pub decode_level : DoubleText → String → Option BookLevel
unfolding stod cut_at
decode_level N s = do
  (price, quantity) ← cut_at b':' s
  p ← stod N price
  q ← stod N quantity
  some (record { price = p; quantity = q })

unfoldable pub decode_levels : DoubleText → List String → Option (List BookLevel)
unfolding decode_level
decode_levels N [] = some []
decode_levels N (s ∷ ss) = do l ← decode_level N s; ls ← decode_levels N ss; some (l ∷ ls)

unfoldable pub decode_book_levels : DoubleText → String → Option (List BookLevel)
unfolding decode_levels split_on
decode_book_levels N s = if is_empty s then some [] else decode_levels N (split_on b',' s)

unfoldable pub market_fields : DoubleText → MarketEvent → List String
unfolding encode_optional_double encode_book_levels instrument_fields
market_fields N e =
    "market"
    ∷ e.event_id
    ∷ print_integer (market_type_index e.event_type)
    ∷ (instrument_fields N e.instrument
        ++ (N.shown e.price
            ∷ N.shown e.quantity
            ∷ encode_optional_double N e.bid_price
            ∷ encode_optional_double N e.ask_price
            ∷ encode_book_levels N e.bid_levels
            ∷ encode_book_levels N e.ask_levels
            ∷ print_integer e.exchange_timestamp
            ∷ print_integer e.receive_timestamp
            ∷ print_integer e.process_timestamp
            ∷ []))

unfoldable pub command_fields : DoubleText → TransactionCommand → List String
unfolding encode_optional_double
command_fields N c =
    "transaction"
    ∷ c.transaction_id
    ∷ c.user_id
    ∷ c.account_id
    ∷ c.command_type
    ∷ c.instrument_symbol
    ∷ N.shown c.quantity
    ∷ encode_optional_double N c.price
    ∷ c.kafka_topic
    ∷ print_integer c.kafka_partition
    ∷ print_integer c.kafka_offset
    ∷ []

unfoldable pub event_fields : DoubleText → EngineEvent → List String
unfolding market_fields command_fields
event_fields N (market_event e) = market_fields N e
event_fields N (transaction_command c) = command_fields N c
event_fields N (timer_event e) = "timer" ∷ e.timer_id ∷ print_integer e.timestamp ∷ []

unfoldable pub serialize_event : DoubleText → EngineEvent → String
unfolding event_fields joined
serialize_event N e = tab_separated (event_fields N e)

-- The fields of a market line up to the book levels, and then the levels and the three timestamps.
unfoldable pub market_of :
    DoubleText
    → List String
    → Option (List BookLevel)
    → Option (List BookLevel)
    → List String
    → Option EngineEvent
unfolding stod decode_optional_double instrument_of stoi stoll
market_of N
      (id ∷ type ∷ instrument ∷ exchange ∷ symbol ∷ base ∷ quote ∷ tick ∷ lot ∷ price ∷ quantity
        ∷ bid ∷ ask ∷ [])
      bids asks (exchanged ∷ received ∷ processed ∷ []) =
    do
      bs ← bids
      as' ← asks
      z ← stoi type
      t ← market_type_of z
      i ← instrument_of N instrument exchange symbol base quote tick lot
      p ← stod N price
      q ← stod N quantity
      b ← decode_optional_double N bid
      a ← decode_optional_double N ask
      x ← stoll exchanged
      r ← stoll received
      s ← stoll processed
      some (
          market_event (record {
            event_id = id;
            event_type = t;
            instrument = i;
            price = p;
            quantity = q;
            bid_price = b;
            ask_price = a;
            bid_levels = bs;
            ask_levels = as';
            exchange_timestamp = x;
            receive_timestamp = r;
            process_timestamp = s;
          }))
market_of N _ bids asks _ = none

-- The fields behind the tag, with or without the two sides of the book.
unfoldable pub deserialize_market : DoubleText → List String → Option EngineEvent
unfolding decode_book_levels market_of
deserialize_market N
      (id ∷ type ∷ instrument ∷ exchange ∷ symbol ∷ base ∷ quote ∷ tick ∷ lot ∷ price ∷ quantity
        ∷ bid ∷ ask ∷ bids ∷ asks ∷ exchanged ∷ received ∷ processed ∷ []) =
    market_of N
      (id ∷ type ∷ instrument ∷ exchange ∷ symbol ∷ base ∷ quote ∷ tick ∷ lot ∷ price ∷ quantity
        ∷ bid ∷ ask ∷ [])
      (decode_book_levels N bids) (decode_book_levels N asks)
      (exchanged ∷ received ∷ processed ∷ [])
deserialize_market N
      (id ∷ type ∷ instrument ∷ exchange ∷ symbol ∷ base ∷ quote ∷ tick ∷ lot ∷ price ∷ quantity
        ∷ bid ∷ ask ∷ exchanged ∷ received ∷ processed ∷ []) =
    market_of N
      (id ∷ type ∷ instrument ∷ exchange ∷ symbol ∷ base ∷ quote ∷ tick ∷ lot ∷ price ∷ quantity
        ∷ bid ∷ ask ∷ [])
      (some []) (some []) (exchanged ∷ received ∷ processed ∷ [])
deserialize_market N _ = none

unfoldable pub deserialize_transaction : DoubleText → List String → Option EngineEvent
unfolding stod decode_optional_double stoi stoll
deserialize_transaction N
      (id ∷ user ∷ account ∷ type ∷ symbol ∷ quantity ∷ price ∷ topic ∷ partition ∷ offset ∷ []) =
    do
      q ← stod N quantity
      p ← decode_optional_double N price
      n ← stoi partition
      o ← stoll offset
      some (
          transaction_command (record {
            transaction_id = id;
            user_id = user;
            account_id = account;
            command_type = type;
            instrument_symbol = symbol;
            quantity = q;
            price = p;
            kafka_topic = topic;
            kafka_partition = n;
            kafka_offset = o;
          }))
deserialize_transaction N _ = none

unfoldable pub deserialize_timer : List String → Option EngineEvent
unfolding stoll
deserialize_timer (id ∷ timestamp ∷ []) = do
  t ← stoll timestamp
  some (timer_event (record { timer_id = id; timestamp = t }))
deserialize_timer _ = none

unfoldable pub deserialize_fields : DoubleText → List String → Option EngineEvent
unfolding deserialize_market deserialize_transaction deserialize_timer
deserialize_fields N [] = none
deserialize_fields N (tag ∷ fs) = ite (dec_str tag "market") (deserialize_market N fs) (
    ite (dec_str tag "transaction") (deserialize_transaction N fs)
      (ite (dec_str tag "timer") (deserialize_timer fs) none))

-- What throws is caught: `none`, as for a line that is no event.
unfoldable pub deserialize_event : DoubleText → String → Option EngineEvent
unfolding deserialize_fields split_tsv
deserialize_event N line = deserialize_fields N (split_tsv line)

pub record ReplayStats : Type 0 where
  pub total_records : ℕ
  pub replayed_records : ℕ
  pub skipped_records : ℕ

unfoldable pub reset_log : File → File
reset_log log = none

-- The log is opened for appending, and made if it is not there.
unfoldable pub append_event : DoubleText → File → EngineEvent → File
unfolding serialize_event
append_event N none e = some (serialize_event N e <> "\n")
append_event N (some text) e = some (text <> (serialize_event N e <> "\n"))

abbrev pub counted : ReplayStats → Option EngineEvent → ReplayStats
counted s none = record s {
  total_records = inc_u64 s.total_records;
  skipped_records = inc_u64 s.skipped_records;
}
counted s (some e) = record s {
  total_records = inc_u64 s.total_records;
  replayed_records = inc_u64 s.replayed_records;
}

abbrev pub passed : Option EngineEvent → List EngineEvent → List EngineEvent
passed none es = es
passed (some e) es = e ∷ es

-- The loop of `replay`: the counters, and the events that `on_event` is called with, in order.
unfoldable pub replay_lines :
    DoubleText → ReplayStats → List String → ReplayStats × List EngineEvent
unfolding deserialize_event
replay_lines N s [] = (s, [])
replay_lines N s (l ∷ ls) =
    let (s', es) = replay_lines N (counted s (deserialize_event N l)) ls in
    (s', passed (deserialize_event N l) es)

abbrev pub no_stats : ReplayStats
no_stats = record { total_records = 0; replayed_records = 0; skipped_records = 0 }

unfoldable pub replay : DoubleText → File → ReplayStats × List EngineEvent
unfolding replay_lines lines_of
replay N none = (no_stats, [])
replay N (some text) = replay_lines N no_stats (lines_of text)
