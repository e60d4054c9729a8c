-- ===== src/Exchange/MarketAdapter.antt =====
-- `MockExchangeMarketDataAdapter` of src/exchange/exchange_market_data_adapter.cpp.
use wall.Core.{
  Double, Instrument, Int64, MarketEvent, MarketEventType, book_snapshot, ticker, trade,
}
use wall.Exchange.{
  ExchangeAdapterError, ExchangeAdapterErrorCode, invalid_numeric_field, malformed_payload,
  missing_required_field, symbol_mismatch, unsupported_message_type,
}
use wall.Fields.{cut_at, split_on, ◌>>=◌}
use wall.Fields.Doubles.{DoubleText, present, stod}
use wall.Fields.Integers.{stoll}
use wall.Prelude.{
  Bool, List, Option, String, [], false, if◌then◌else◌, is_some, ite, none, not, some, true,
  value_or, ◌&&◌, ◌||◌, ◌∷◌,
}
use wall.Prelude.Dict.{Dict, contains, insert, lookup}
use wall.Prelude.Int.{pos, ℤ}
use wall.Prelude.Text.{dec_str, is_empty}

-- `std::variant<MarketEvent, ExchangeAdapterError>`
pub data Normalized : Type 0 where
  normalized : MarketEvent → Normalized
  failed : ExchangeAdapterError → Normalized

abbrev pub fails : ExchangeAdapterErrorCode → String → Normalized
fails c m = failed (record { code = c; message = m; retryable = false })

-- `emplace` keeps the first value of a key.
abbrev pub emplaced_field : String → String → Dict String → Dict String
emplaced_field key value d = if contains key d then d else insert key value d

-- A token must have a key and a value with `=` between them.
abbrev pub field_of : Option (String × String) → Dict String → Option (Dict String)
field_of none d = none
field_of (some (key, value)) d =
    if is_empty key || is_empty value then none else some (emplaced_field key value d)

-- The body of the loop of `parse_fields`: an empty token is passed over.
unfoldable pub parse_token : String → Dict String → Option (Dict String)
unfolding cut_at
parse_token t d = if is_empty t then some d else field_of (cut_at b'=' t) d

unfoldable pub parse_tokens : List String → Dict String → Option (Dict String)
unfolding parse_token
parse_tokens [] d = some d
parse_tokens (t ∷ ts) d = do d' ← parse_token t d; parse_tokens ts d'

unfoldable pub parse_fields : String → Option (Dict String)
unfolding parse_tokens split_on
parse_fields payload = parse_tokens (split_on b';' payload) []

unfoldable pub parse_int64 : Dict String → String → Option ℤ
unfolding stoll
parse_int64 d key = lookup key d >>= stoll

-- `none` sets `parse_error`; a field that is not there is `some none`.
abbrev pub optional_text : DoubleText → Option String → Option (Option Double)
optional_text N none = some none
optional_text N (some s) = present (stod N s)

unfoldable pub parse_optional_double : DoubleText → Dict String → String → Option (Option Double)
unfolding stod
parse_optional_double N d key = optional_text N (lookup key d)

abbrev pub type_of_text : String → Option MarketEventType
type_of_text s = ite (dec_str s "trade") (some trade) (
    ite (dec_str s "ticker") (some ticker)
      (ite (dec_str s "book_snapshot") (some book_snapshot) none))

abbrev pub is_trade : MarketEventType → Bool
is_trade trade = true
is_trade _ = false

-- The numbers of a payload: price, quantity, bid and ask.
pub record Numbers : Type 0 where
  pub price : Option Double
  pub quantity : Option Double
  pub bid : Option Double
  pub ask : Option Double

unfoldable pub numbers_of : DoubleText → Dict String → Option Numbers
unfolding parse_optional_double
numbers_of N d = do
  p ← parse_optional_double N d "price"
  q ← parse_optional_double N d "quantity"
  b ← parse_optional_double N d "bid"
  a ← parse_optional_double N d "ask"
  some (record { price = p; quantity = q; bid = b; ask = a })

-- What `normalize` does from the numbers on.
abbrev pub event_of :
    Instrument → String → MarketEventType → Int64 → Int64 → Int64 → Option Numbers → Normalized
event_of i id t exchanged received processed none =
    fails invalid_numeric_field "invalid numeric market payload field"
event_of i id t exchanged received processed (some n) =
    if is_trade t && (not (is_some n.price) || not (is_some n.quantity))
    then fails missing_required_field "trade payload requires price and quantity"
    else normalized (record {
      event_id = id;
      event_type = t;
      instrument = i;
      price = value_or n.price (pos 0);
      quantity = value_or n.quantity (pos 0);
      bid_price = n.bid;
      ask_price = n.ask;
      bid_levels = [];
      ask_levels = [];
      exchange_timestamp = exchanged;
      receive_timestamp = received;
      process_timestamp = processed;
    })

-- From `exchange_timestamp` on.
abbrev pub timed :
    DoubleText
    → Instrument
    → Dict String
    → String
    → MarketEventType
    → Int64
    → Int64
    → Option Int64
    → Normalized
timed N i d id t received processed none =
    fails missing_required_field "missing required exchange_ts field"
timed N i d id t received processed (some exchanged) =
    event_of i id t exchanged received processed (numbers_of N d)

-- From the type on.
abbrev pub typed :
    DoubleText
    → Instrument
    → Dict String
    → String
    → Int64
    → Int64
    → Option MarketEventType
    → Normalized
typed N i d id received processed none =
    fails unsupported_message_type "unsupported market message type"
typed N i d id received processed (some t) =
    timed N i d id t received processed (parse_int64 d "exchange_ts")

-- The required fields, type, event id and symbol.
abbrev pub required :
    DoubleText
    → Instrument
    → Dict String
    → Int64
    → Int64
    → Option String
    → Option String
    → Option String
    → Normalized
required N i d received processed (some t) (some id) (some symbol) =
    ite (dec_str symbol i.symbol) (typed N i d id received processed (type_of_text t))
      (fails symbol_mismatch "symbol does not match configured instrument")
required N i d received processed _ _ _ =
    fails missing_required_field "missing required market payload field"

abbrev pub normalize_fields :
    DoubleText → Instrument → Int64 → Int64 → Option (Dict String) → Normalized
normalize_fields N i received processed none = fails malformed_payload "malformed market payload"
normalize_fields N i received processed (some d) =
    required N i d received processed (lookup "type" d) (lookup "event_id" d) (lookup "symbol" d)

unfoldable pub normalize : DoubleText → Instrument → String → Int64 → Int64 → Normalized
unfolding parse_fields numbers_of parse_int64
normalize N i payload received processed =
    normalize_fields N i received processed (parse_fields payload)
