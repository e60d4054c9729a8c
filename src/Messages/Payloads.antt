-- ===== src/Messages/Payloads.antt =====
-- A transaction that was published is consumed as it was
-- (src/infrastructure/kafka_transaction_producer.cpp, src/infrastructure/kafka_transaction_consumer.cpp).
use text.Mathlib.TextLemmas.{cons-ne-nil}
use wall.Core.{Double, TransactionCommand}
use wall.Fields.Doubles.{
  AllNumeral-Lacks, DoubleText, IsNumeric, Survives, Survives-ne_nil, decode_optional_double,
  is_empty-false, stod-Survives,
}
use wall.Fields.Laws.{
  HasLast, Lacks, Lacks-append, append-ne_nil, cut_at-append, lacks, lacks-Lacks, one_char,
  split_on-joined,
}
use wall.Messages.{
  RawKafkaMessage, assignment, command_of_fields, parse_key_value_payload, parse_raw_message,
  payload_tokens, price_assignment, read_tokens, serialize_transaction_command_payload,
}
use wall.Prelude.{All, List, Option, String, [], none, refl, some, true, ◌∙◌, ◌∷◌, ◌≡◌, ◌≢◌, ◌⊳◌}
use wall.Prelude.Dict.{Dict, insert, lookup}
use wall.Prelude.Text.{dec_str}

-- The texts hold no semicolon, and the numbers come back from what is shown of them.
pub record Publishable (N : DoubleText) (c : TransactionCommand) : Type 0 where
  pub id_lacks : Lacks b';' c.transaction_id
  pub user_lacks : Lacks b';' c.user_id
  pub account_lacks : Lacks b';' c.account_id
  pub type_lacks : Lacks b';' c.command_type
  pub symbol_lacks : Lacks b';' c.instrument_symbol
  pub quantity_survives : Survives N N.shown c.quantity
  pub price_survives : (p : Double) → c.price ≡ some p → Survives N N.shown p

assignment-Lacks :
    (key value : String)
    → lacks b';' key ≡ true
    → Lacks b';' value
    → Lacks b';' (assignment key value)
assignment-Lacks key value h g =
    Lacks-append b';' key _ (lacks-Lacks b';' key h) (Lacks-append b';' "=" value (refl, tt) g)

-- A token that assigns a value to a key.
read_tokens-assignment :
    (key value : String) (ts : List String) (d : Dict String)
    → lacks b'=' key ≡ true
    → key ≢ ""
    → read_tokens (assignment key value ∷ ts) d ≡ read_tokens ts (insert key value d)
unfolding read_tokens
read_tokens-assignment key value ts d h g =
    rw
      (
        is_empty-false (assignment key value) (append-ne_nil key _ g),
        one_char "=" value,
        cut_at-append b'=' key "=" value refl (lacks-Lacks b'=' key h),
      )
      refl

price-Lacks :
    (N : DoubleText) (o : Option Double) → IsNumeric N → All (Lacks b';') (price_assignment N o)
unfolding lacks
price-Lacks N none n = tt
price-Lacks N (some p) n = (
  assignment-Lacks "price" (N.shown p) refl (AllNumeral-Lacks b';' _ refl (n.shown_numeral p)),
  tt,
)

tokens-Lacks :
    (N : DoubleText) (c : TransactionCommand)
    → IsNumeric N
    → Publishable N c
    → All (Lacks b';') (payload_tokens N c)
unfolding payload_tokens lacks
tokens-Lacks N c n w =
    assignment-Lacks "transaction_id" c.transaction_id refl w.id_lacks
    ⊳ assignment-Lacks "user_id" c.user_id refl w.user_lacks
    ⊳ assignment-Lacks "account_id" c.account_id refl w.account_lacks
    ⊳ assignment-Lacks "command_type" c.command_type refl w.type_lacks
    ⊳ assignment-Lacks "instrument_symbol" c.instrument_symbol refl w.symbol_lacks
    ⊳ assignment-Lacks "quantity" (N.shown c.quantity) refl
        (AllNumeral-Lacks b';' _ refl (n.shown_numeral c.quantity))
    ⊳ price-Lacks N c.price n

price-HasLast :
    (N : DoubleText) (q : Double) (o : Option Double)
    → HasLast (assignment "quantity" (N.shown q) ∷ price_assignment N o)
price-HasLast N q none = append-ne_nil "quantity" _ (λ e. cons-ne-nil _ _ e)
price-HasLast N q (some p) = append-ne_nil "price" _ (λ e. cons-ne-nil _ _ e)

tokens-HasLast : (N : DoubleText) (c : TransactionCommand) → HasLast (payload_tokens N c)
unfolding payload_tokens
tokens-HasLast N c = price-HasLast N c.quantity c.price

-- The six keys that each payload has.
abbrev assigned_keys : DoubleText → TransactionCommand → Dict String
assigned_keys N c = insert "quantity" (N.shown c.quantity) (
    insert "instrument_symbol" c.instrument_symbol (
      insert "command_type" c.command_type (
        insert "account_id" c.account_id
          (insert "user_id" c.user_id (insert "transaction_id" c.transaction_id [])))))

read_tokens-payload_tokens :
    (N : DoubleText) (c : TransactionCommand)
    → read_tokens (payload_tokens N c) []
      ≡ read_tokens (price_assignment N c.price) (assigned_keys N c)
unfolding payload_tokens lacks
read_tokens-payload_tokens N c =
    read_tokens-assignment "transaction_id" c.transaction_id _ _ refl (cons-ne-nil _ _)
    ∙ read_tokens-assignment "user_id" c.user_id _ _ refl (cons-ne-nil _ _)
    ∙ read_tokens-assignment "account_id" c.account_id _ _ refl (cons-ne-nil _ _)
    ∙ read_tokens-assignment "command_type" c.command_type _ _ refl (cons-ne-nil _ _)
    ∙ read_tokens-assignment "instrument_symbol" c.instrument_symbol _ _ refl (cons-ne-nil _ _)
    ∙ read_tokens-assignment "quantity" (N.shown c.quantity) _ _ refl (cons-ne-nil _ _)

abbrev priced_keys : DoubleText → Option Double → Dict String → Dict String
priced_keys N none d = d
priced_keys N (some p) d = insert "price" (N.shown p) d

read_tokens-price_assignment :
    (N : DoubleText) (o : Option Double) (d : Dict String)
    → read_tokens (price_assignment N o) d ≡ priced_keys N o d
unfolding read_tokens lacks
read_tokens-price_assignment N none d = refl
read_tokens-price_assignment N (some p) d =
    read_tokens-assignment "price" (N.shown p) [] d refl (cons-ne-nil _ _)

abbrev pub message_of : TransactionCommand → String → RawKafkaMessage
message_of c payload = record {
  topic = c.kafka_topic;
  partition = c.kafka_partition;
  offset = c.kafka_offset;
  payload = payload;
}

command_of_fields-priced_keys :
    (N : DoubleText) (c : TransactionCommand) (payload : String) (o : Option Double)
    → IsNumeric N
    → Survives N N.shown c.quantity
    → ((p : Double) → o ≡ some p → Survives N N.shown p)
    → command_of_fields N (message_of c payload) (priced_keys N o (assigned_keys N c))
      ≡ some (record c { price = o })
unfolding command_of_fields insert lookup dec_str decode_optional_double
command_of_fields-priced_keys N c payload none n q w =
    rw (stod-Survives N N.shown c.quantity q) refl
command_of_fields-priced_keys N c payload (some p) n q w =
    rw
      (
        stod-Survives N N.shown c.quantity q,
        is_empty-false (N.shown p) (Survives-ne_nil N N.shown p n (w p refl)),
        stod-Survives N N.shown p (w p refl),
      )
      refl

-- A transaction that was serialized is parsed as it was, with the topic, partition and offset of its
-- message: if its texts hold no semicolon, and its quantity and price come back from the digits
-- that are written of them.
pub parse-serialize_transaction_command_payload :
    (N : DoubleText) (c : TransactionCommand)
    → IsNumeric N
    → Publishable N c
    → parse_raw_message N (message_of c (serialize_transaction_command_payload N c)) ≡ some c
unfolding parse_raw_message serialize_transaction_command_payload parse_key_value_payload
parse-serialize_transaction_command_payload N c n w =
    rw
      (
        split_on-joined b';' ";" (payload_tokens N c) refl (tokens-Lacks N c n w)
            (tokens-HasLast N c),
        read_tokens-payload_tokens N c,
        read_tokens-price_assignment N c.price (assigned_keys N c),
      )
      (command_of_fields-priced_keys N c (serialize_transaction_command_payload N c) c.price n
        w.quantity_survives w.price_survives)
