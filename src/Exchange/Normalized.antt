-- ===== src/Exchange/Normalized.antt =====
-- What a message that src/exchange/exchange_market_data_adapter.cpp accepts has become.
use wall.Core.{Instrument, Int64, MarketEvent, MarketEventType}
use wall.Exchange.{ExchangeAdapterError, missing_required_field}
use wall.Exchange.MarketAdapter.{
  Normalized, Numbers, event_of, failed, fails, is_trade, normalize, normalize_fields, normalized,
  numbers_of, parse_fields, parse_int64, required, timed, type_of_text, typed,
}
use wall.Fields.Doubles.{DoubleText}
use wall.Prelude.{
  Bool, Bool-cases, Option, Option-cases, String, [], ap, arith, false, if_neg, if_pos,
  if◌then◌else◌, inl, inr, is_some, none, not, refl, some, subst, sym, true, value_or, ◌&&◌, ◌||◌,
  ◌∙◌, ◌≡◌, ◌≢◌,
}
use wall.Prelude.Dict.{Dict, lookup}
use wall.Prelude.Int.{pos}
use wall.Prelude.Text.{dec_str}

-- The event says what the fields say.
pub record Describes (N : DoubleText) (i : Instrument) (d : Dict String)
    (received processed : Int64) (e : MarketEvent) : Type 0 where
  pub id : lookup "event_id" d ≡ some e.event_id
  pub symbol : lookup "symbol" d ≡ some i.symbol
  pub type : (t : String) × (lookup "type" d ≡ some t) × (type_of_text t ≡ some e.event_type)
  pub instrument : e.instrument ≡ i
  pub exchanged : parse_int64 d "exchange_ts" ≡ some e.exchange_timestamp
  pub received_at : e.receive_timestamp ≡ received
  pub processed_at : e.process_timestamp ≡ processed
  pub numbers :
      (n : Numbers) × (numbers_of N d ≡ some n)
      × (e.price ≡ value_or n.price (pos 0))
      × (e.quantity ≡ value_or n.quantity (pos 0))
      × (e.bid_price ≡ n.bid)
      × (e.ask_price ≡ n.ask)
      × (is_trade e.event_type ≡ true → (is_some n.price ≡ true) × (is_some n.quantity ≡ true))

abbrev event_or : MarketEvent → Normalized → MarketEvent
event_or e (normalized x) = x
event_or e (failed _) = e

not_failed : (x : ExchangeAdapterError) (e : MarketEvent) → failed x ≢ normalized e
not_failed x e h = cc

abbrev guard : MarketEventType → Numbers → Bool
guard t n = is_trade t && (not (is_some n.price) || not (is_some n.quantity))

guard_open :
    (t : MarketEventType) (n : Numbers)
    → guard t n ≡ false
    → is_trade t ≡ true
    → (is_some n.price ≡ true) × (is_some n.quantity ≡ true)
guard_open t n h g = (ground arith, ground arith)

module _ (N : DoubleText) (i : Instrument) (d : Dict String) (received processed : Int64)
    (e : MarketEvent) where
  abbrev event_with : String → MarketEventType → Int64 → Numbers → MarketEvent
  event_with id k x n = record {
    event_id = id;
    event_type = k;
    instrument = i;
    price = value_or n.price (pos 0);
    quantity = value_or n.quantity (pos 0);
    bid_price = n.bid;
    ask_price = n.ask;
    bid_levels = [];
    ask_levels = [];
    exchange_timestamp = x;
    receive_timestamp = received;
    process_timestamp = processed;
  }

  accepted_numbers :
      (id t : String) (k : MarketEventType) (x : Int64) (o : Option Numbers)
      → lookup "event_id" d ≡ some id
      → lookup "symbol" d ≡ some i.symbol
      → lookup "type" d ≡ some t
      → type_of_text t ≡ some k
      → parse_int64 d "exchange_ts" ≡ some x
      → numbers_of N d ≡ o
      → event_of i id k x received processed o ≡ normalized e
      → Describes N i d received processed e
  accepted_numbers id t k x none a b c f g o h = absurd (cc)
  accepted_numbers id t k x (some n) a b c f g o h = elim (Bool-cases (guard k n)) [
    | inl shut ↦ absurd (
        not_failed _ e (
          sym (
            ap
              (λ z.
                if z
                then fails missing_required_field "trade payload requires price and quantity"
                else normalized (event_with id k x n))
              shut)
          ∙ h))
    | inr passes ↦
        let same : event_with id k x n ≡ e = ap (event_or e) (
          sym (
            ap
              (λ z.
                if z
                then fails missing_required_field "trade payload requires price and quantity"
                else normalized (event_with id k x n))
              passes)
          ∙ h) in
        subst (Describes N i d received processed) same (record {
          id = a;
          symbol = b;
          type = (t, c, f);
          instrument = refl;
          exchanged = g;
          received_at = refl;
          processed_at = refl;
          numbers = (n, o, refl, refl, refl, refl, λ trades. guard_open k n passes trades);
        })
  ]

  accepted_time :
      (id t : String) (k : MarketEventType) (o : Option Int64)
      → lookup "event_id" d ≡ some id
      → lookup "symbol" d ≡ some i.symbol
      → lookup "type" d ≡ some t
      → type_of_text t ≡ some k
      → parse_int64 d "exchange_ts" ≡ o
      → timed N i d id k received processed o ≡ normalized e
      → Describes N i d received processed e
  accepted_time id t k none a b c f g h = absurd (cc)
  accepted_time id t k (some x) a b c f g h =
      accepted_numbers id t k x (numbers_of N d) a b c f g refl h

  accepted_type :
      (id t : String) (o : Option MarketEventType)
      → lookup "event_id" d ≡ some id
      → lookup "symbol" d ≡ some i.symbol
      → lookup "type" d ≡ some t
      → type_of_text t ≡ o
      → typed N i d id received processed o ≡ normalized e
      → Describes N i d received processed e
  accepted_type id t none a b c f h = absurd (cc)
  accepted_type id t (some k) a b c f h =
      accepted_time id t k (parse_int64 d "exchange_ts") a b c f refl h

  accepted_fields :
      (t id s : Option String)
      → lookup "type" d ≡ t
      → lookup "event_id" d ≡ id
      → lookup "symbol" d ≡ s
      → required N i d received processed t id s ≡ normalized e
      → Describes N i d received processed e
  accepted_fields none id s a b c h = absurd (cc)
  accepted_fields (some t) none s a b c h = absurd (cc)
  accepted_fields (some t) (some id) none a b c h = absurd (cc)
  accepted_fields (some t) (some id) (some s) a b c h = elim (dec_str s i.symbol) [
    | yes hit ↦
        accepted_type id t (type_of_text t) b (c ∙ ap some hit) a refl
          (sym (if_pos (dec_str s i.symbol) hit _ _) ∙ h)
    | no miss ↦ absurd (not_failed _ e (sym (if_neg (dec_str s i.symbol) miss _ _) ∙ h))
  ]

-- An accepted message is one of the configured symbol with the required fields, and the event says what they
-- say: its instrument is the configured one, its timestamps are those of the message and of the call, its
-- numbers are those that were read, 0 where a price or quantity is missing; a trade has both.
pub normalize-Describes :
    (N : DoubleText) (i : Instrument) (payload : String) (received processed : Int64)
    (e : MarketEvent)
    → normalize N i payload received processed ≡ normalized e
    → (d : Dict String) × (parse_fields payload ≡ some d) × Describes N i d received processed e
unfolding normalize
normalize-Describes N i payload received processed e h =
    elim (Option-cases (parse_fields payload)) [
      | inl none_there ↦
          absurd
            (not_failed _ e (sym (ap (normalize_fields N i received processed) none_there) ∙ h))
      | inr (d, there) ↦ (
        d,
        there,
        accepted_fields N i d received processed e (lookup "type" d) (lookup "event_id" d)
            (lookup "symbol" d) refl refl refl
            (sym (ap (normalize_fields N i received processed) there) ∙ h),
      )
    ]
