-- ===== src/Messages.antt =====
-- src/infrastructure/kafka_transaction_consumer.cpp and the payload of
-- src/infrastructure/kafka_transaction_producer.cpp: transactions as messages. The client that the
-- consumer is given is a queue of messages, at its end when `poll` finds none, with the commits.
pub mod Payloads
pub mod Polling
use Prim.Native.String.{◌++◌ as ◌<>◌}
use wall.Core.{Double, Int64, TransactionCommand}
use wall.Fields.{cut_at, joined, split_on, ◌>>=◌}
use wall.Fields.Doubles.{DoubleText, decode_optional_double, stod}
use wall.Prelude.{List, Option, String, [], if◌then◌else◌, ite, none, some, ◌++◌, ◌∷◌}
use wall.Prelude.Dict.{Dict, insert, lookup}
use wall.Prelude.Text.{dec_str, is_empty}

pub record RawKafkaMessage : Type 0 where
  pub topic : String
  pub partition : Int64
  pub offset : Int64
  pub payload : String

pub record Commit : Type 0 where
  pub topic : String
  pub partition : Int64
  pub offset : Int64

pub record Client : Type 0 where
  pub queue : List RawKafkaMessage
  pub commits : List Commit

abbrev pub assignment : String → String → String
assignment key value = key <> ("=" <> value)

abbrev pub price_assignment : DoubleText → Option Double → List String
price_assignment N none = []
price_assignment N (some p) = assignment "price" (N.shown p) ∷ []

unfoldable pub payload_tokens : DoubleText → TransactionCommand → List String
payload_tokens N c =
    (assignment "transaction_id" c.transaction_id
      ∷ assignment "user_id" c.user_id
      ∷ assignment "account_id" c.account_id
      ∷ assignment "command_type" c.command_type
      ∷ assignment "instrument_symbol" c.instrument_symbol
      ∷ assignment "quantity" (N.shown c.quantity)
      ∷ [])
    ++ price_assignment N c.price

unfoldable pub serialize_transaction_command_payload : DoubleText → TransactionCommand → String
unfolding payload_tokens joined
serialize_transaction_command_payload N c = joined ";" (payload_tokens N c)

-- A token without `=` is skipped, as an empty one is.
abbrev pub assigned : Option (String × String) → Dict String → Dict String
assigned none d = d
assigned (some (key, value)) d = insert key value d

unfoldable pub read_tokens : List String → Dict String → Dict String
unfolding cut_at
read_tokens [] d = d
read_tokens (t ∷ ts) d = read_tokens ts (if is_empty t then d else assigned (cut_at b'=' t) d)

unfoldable pub parse_key_value_payload : String → Dict String
unfolding read_tokens split_on
parse_key_value_payload payload = read_tokens (split_on b';' payload) []

-- The price is left out without the key, and where its text is empty.
abbrev pub price_text : Option String → String
price_text none = ""
price_text (some s) = s

-- `none` where a key is missing or `std::stod` throws, which is caught.
unfoldable pub command_of_fields :
    DoubleText → RawKafkaMessage → Dict String → Option TransactionCommand
unfolding stod decode_optional_double
command_of_fields N m fields = do
  transaction ← lookup "transaction_id" fields
  user ← lookup "user_id" fields
  account ← lookup "account_id" fields
  type ← lookup "command_type" fields
  symbol ← lookup "instrument_symbol" fields
  amount ← lookup "quantity" fields
  q ← stod N amount
  p ← decode_optional_double N (price_text (lookup "price" fields))
  some (record {
    transaction_id = transaction;
    user_id = user;
    account_id = account;
    command_type = type;
    instrument_symbol = symbol;
    quantity = q;
    price = p;
    kafka_topic = m.topic;
    kafka_partition = m.partition;
    kafka_offset = m.offset;
  })

unfoldable pub parse_raw_message : DoubleText → RawKafkaMessage → Option TransactionCommand
unfolding parse_key_value_payload command_of_fields
parse_raw_message N m = command_of_fields N m (parse_key_value_payload m.payload)

abbrev pub offset_of : RawKafkaMessage → Commit
offset_of m = record { topic = m.topic; partition = m.partition; offset = m.offset }

abbrev pub committed : List Commit → RawKafkaMessage → List Commit
committed cs m = cs ++ (offset_of m ∷ [])

-- The body of the loop of `poll`: the command of a message of the topic that can be read.
unfoldable pub wanted : DoubleText → String → RawKafkaMessage → Option TransactionCommand
unfolding parse_raw_message
wanted N topic m = ite (dec_str m.topic topic) (parse_raw_message N m) none

-- The loop: other messages are committed and passed over.
abbrev pub first_wanted :
    RawKafkaMessage
    → List RawKafkaMessage
    → List Commit
    → Client × Option TransactionCommand
    → Option TransactionCommand
    → Client × Option TransactionCommand
first_wanted m ms cs rest none = rest
first_wanted m ms cs rest (some c) = (record { queue = ms; commits = cs }, some c)

unfoldable pub poll_queue :
    DoubleText → String → List RawKafkaMessage → List Commit → Client × Option TransactionCommand
unfolding wanted
poll_queue N topic [] cs = (record { queue = []; commits = cs }, none)
poll_queue N topic (m ∷ ms) cs =
    first_wanted m ms cs (poll_queue N topic ms (committed cs m)) (wanted N topic m)

unfoldable pub poll_messages : DoubleText → String → Client → Client × Option TransactionCommand
unfolding poll_queue
poll_messages N topic s = poll_queue N topic s.queue s.commits

unfoldable pub commit_message : Client → TransactionCommand → Client
commit_message s c = record s {
  commits =
      s.commits
      ++ ((record { topic = c.kafka_topic; partition = c.kafka_partition; offset = c.kafka_offset })
          ∷ []);
}
