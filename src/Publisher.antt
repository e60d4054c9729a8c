-- ===== src/Publisher.antt =====
-- src/app/transaction_publisher_application.cpp: lines of flat JSON objects, read as transactions and
-- published. Its `trim` is that of src/config/config_loader.cpp. The position of the cursor is the text
-- behind it. A publication that throws ends the program, and is left out.
pub mod Termination
use Prim.Native.Char.{code}
use wall.Config.Lines.{trim}
use wall.Core.{TransactionCommand}
use wall.Exchange.MarketAdapter.{emplaced_field}
use wall.Fields.{cut_at, push_first, ◌>>=◌}
use wall.Fields.Doubles.{DoubleText, decode_optional_double, stod}
use wall.Fields.Integers.{is_space}
use wall.Prelude.{
  Bool, List, Option, String, [], false, foldl, if◌then◌else◌, inc_u64, none, not, some, suc, true,
  zero, ℕ, ◌++◌, ◌==◌, ◌||◌, ◌∷◌,
}
use wall.Prelude.Dict.{Dict, lookup}
use wall.Prelude.Int.{pos}
use wall.Prelude.Text.{is_empty, same_text, text_length}

unfoldable pub skip_while : (ℕ → Bool) → String → String
skip_while p String.[] = ""
skip_while p (String.◌∷◌ c s) =
    let rest = skip_while p s in if p (code c) then rest else String.◌∷◌ c s

abbrev pub is_separator : ℕ → Bool
is_separator c = is_space c || c == b','

-- `cursor + 1 < json.size()` does not hold.
abbrev pub is_short : String → Bool
is_short String.[] = true
is_short (String.◌∷◌ c String.[]) = true
is_short (String.◌∷◌ c (String.◌∷◌ d s)) = false

-- `find_first_of(",}")` with the text before it and from it on.
unfoldable pub cut_before : (ℕ → Bool) → String → Option (String × String)
cut_before p String.[] = none
cut_before p (String.◌∷◌ c s) =
    let rest = cut_before p s in if p (code c) then some ("", String.◌∷◌ c s) else push_first c rest

abbrev pub ends_value : ℕ → Bool
ends_value c = c == b',' || c == b'}'

abbrev pub trimmed : Option (String × String) → Option (String × String)
trimmed none = none
trimmed (some (s, rest)) = some (trim s, rest)

-- A value in quotes, or up to the next comma or brace.
unfoldable pub read_value : String → Option (String × String)
unfolding cut_at cut_before trim
read_value String.[] = none
read_value (String.◌∷◌ c s) =
    if code c == b'"' then cut_at b'"' s else trimmed (cut_before ends_value (String.◌∷◌ c s))

-- What follows a key.
unfoldable pub read_colon : String → Option (String × String)
unfolding read_value skip_while
read_colon String.[] = none
read_colon (String.◌∷◌ c s) = if code c == b':' then read_value (skip_while is_space s) else none

abbrev pub keyed : String → Option (String × String) → Option (String × String × String)
keyed key none = none
keyed key (some (value, rest)) = some (key, value, rest)

abbrev pub read_rest : Option (String × String) → Option (String × String × String)
read_rest none = none
read_rest (some (key, rest)) = keyed key (read_colon (skip_while is_space rest))

-- A key in quotes with its value, and the text behind them.
unfoldable pub read_entry : String → Option (String × String × String)
unfolding cut_at read_colon skip_while
read_entry String.[] = none
read_entry (String.◌∷◌ c s) = if code c == b'"' then read_rest (cut_at b'"' s) else none

abbrev pub with_entry :
    Option (String × String × String)
    → Dict String
    → (String → Dict String → Option (Option (Dict String)))
    → Option (Option (Dict String))
with_entry none d next = some none
with_entry (some (key, value, rest)) d next = next rest (emplaced_field key value d)

-- The loop: the outer `none` is an end of the fuel, the inner one a text that is no object.
unfoldable pub read_fields : ℕ → String → Dict String → Option (Option (Dict String))
unfolding skip_while read_entry
read_fields zero s d = none
read_fields (suc fuel) s d =
    let rest = skip_while is_separator s in
    if is_short s
    then some (some d)
    else if is_short rest
    then some (some d)
    else with_entry (read_entry rest) d (read_fields fuel)

abbrev pub last_is : ℕ → String → Bool
last_is c String.[] = false
last_is c (String.◌∷◌ d String.[]) = code d == c
last_is c (String.◌∷◌ d (String.◌∷◌ e s)) = last_is c (String.◌∷◌ e s)

abbrev pub finished {ℓ} : {A : Type ℓ} → Option (Option A) → Option A
finished none = none
finished (some r) = r

-- `json.front()` and `json.back()` are the braces.
abbrev pub parse_object : String → Option (Dict String)
parse_object String.[] = none
parse_object (String.◌∷◌ c s) =
    if not (code c == b'{') || not (last_is b'}' (String.◌∷◌ c s))
    then none
    else finished (read_fields (suc (text_length s)) s [])

unfoldable pub parse_flat_json_object : String → Option (Dict String)
unfolding read_fields trim text_length
parse_flat_json_object line = parse_object (trim line)

abbrev pub json_price : Option String → String
json_price none = ""
json_price (some s) = if same_text s "null" then "" else s

unfoldable pub json_command : DoubleText → Dict String → Option TransactionCommand
unfolding stod decode_optional_double
json_command N fields = do
  transaction ← lookup "transaction_id" fields
  user ← lookup "user_id" fields
  account ← lookup "account_id" fields
  type ← lookup "command_type" fields
  symbol ← lookup "instrument_symbol" fields
  amount ← lookup "quantity" fields
  q ← stod N amount
  p ← decode_optional_double N (json_price (lookup "price" fields))
  some (record {
    transaction_id = transaction;
    user_id = user;
    account_id = account;
    command_type = type;
    instrument_symbol = symbol;
    quantity = q;
    price = p;
    kafka_topic = "";
    kafka_partition = pos 0;
    kafka_offset = pos 0;
  })

unfoldable pub parse_json_transaction_command_line : DoubleText → String → Option TransactionCommand
unfolding parse_flat_json_object json_command
parse_json_transaction_command_line N line = parse_flat_json_object line >>= json_command N

-- The published transactions in their order, and `skipped_count`.
pub record Published : Type 0 where
  pub commands : List TransactionCommand
  pub skipped_count : ℕ

abbrev pub publish_parsed : Option TransactionCommand → Published → Published
publish_parsed none s = record s { skipped_count = inc_u64 s.skipped_count }
publish_parsed (some c) s = record s { commands = s.commands ++ (c ∷ []) }

unfoldable pub publish_line : DoubleText → Published → String → Published
unfolding parse_json_transaction_command_line trim
publish_line N s line =
    if is_empty (trim line)
    then s
    else publish_parsed (parse_json_transaction_command_line N (trim line)) s

unfoldable pub publish_lines : DoubleText → List String → Published
unfolding publish_line
publish_lines N ls = foldl (publish_line N) (record { commands = []; skipped_count = 0 }) ls
