-- ===== src/Config/Acceptance.antt =====
-- The values that the environment or a file gives when src/config/config_loader.cpp loads and accepts them.
use mathlib.Core.Path.{fun_ext}
use wall.Config.{AppConfig, validate}
use wall.Config.Lines.{read_config_lines, split_csv, trimmed_items}
use wall.Config.Loading.{
  config_of, config_with, get_double, get_int, get_int64, get_string, known_keys, load_from_file,
  overridden, parse_number, whole,
}
use wall.Config.Overrides.{by_older_variable, by_variable, first_of, lookup-overridden}
use wall.Config.Parsed.{parsed}
use wall.Config.Validity.{IsComplete, valid-IsComplete}
use wall.Core.{one}
use wall.Fields.{lines_of, split_on, ◌>>=◌}
use wall.Fields.Doubles.{DoubleText}
use wall.Fields.Integers.{int64_bound, read_integer}
use wall.Prelude.{
  inl, inr, ◌⊳◌, All, List, Option, String, [], ap, arith, none, refl, some, subst, sym, true,
  value_or, ◌∷◌, ◌≡◌, ◌≢◌, ◌⊎◌, if◌then◌else◌,
}
use wall.Prelude.Dict.{Dict, lookup}
use wall.Prelude.Int.{pos, ℤ, ◌<ℤ◌, ◌≤ℤ◌}
use wall.Prelude.Text.{is_empty, ne_of_test}

abbrev pub HasText : Option String → Type 0
HasText o = (s : String) × (o ≡ some s) × (s ≢ "")

-- The whole text is read as a number with the property.
abbrev pub HasNumber : (ℤ → Type 0) → (String → Option (ℤ × String)) → Option String → Type 0
HasNumber P read o = (s : String) × (z : ℤ) × (o ≡ some s) × (read s ≡ some (z, "")) × P z

abbrev pub required_texts : List String
required_texts =
    "mode" ∷ "redis.host" ∷ "postgres.host" ∷ "postgres.database" ∷ "postgres.user"
    ∷ "kafka.brokers" ∷ "kafka.transaction_topic" ∷ "kafka.consumer_group" ∷ "strategy.id"
    ∷ "strategy.trigger_instrument_id" ∷ []

abbrev pub required_numbers : List String
required_numbers =
    "risk.max_order_quantity" ∷ "risk.max_order_notional" ∷ "risk.max_position_quantity"
    ∷ "strategy.trigger_price" ∷ "strategy.order_quantity" ∷ "simulation.partial_fill_threshold"
    ∷ []

-- The values of the keys that have one.
pub record IsAcceptable (N : DoubleText) (value : String → Option String) : Type 0 where
  pub texts : All (λ key. HasText (value key)) required_texts
  pub numbers : All (λ key. HasNumber (λ z. pos 0 <ℤ z) N.read_double (value key)) required_numbers
  pub stale : HasNumber (λ z. pos 0 <ℤ z) (read_integer int64_bound) (value "risk.stale_after_ms")
  pub ratio :
      HasNumber
        (λ z. (pos 0 <ℤ z) × (z ≤ℤ one))
        N.read_double
        (value "simulation.partial_fill_ratio")
  pub side : (value "strategy.side" ≡ some "buy") ⊎ (value "strategy.side" ≡ some "sell")

bind_some :
    {A B : Type 0} (o : Option A) (f : A → Option B) (b : B)
    → (o >>= f) ≡ some b
    → (a : A) × (o ≡ some a) × (f a ≡ some b)
bind_some none f b h = absurd (cc)
bind_some (some a) f b h = (a, refl, h)

text_given : (o : Option String) → value_or o "" ≢ "" → HasText o
text_given none h = absurd (h refl)
text_given (some s) h = (s, refl, h)

word_given : (o : Option String) (w : String) → w ≢ "" → value_or o "" ≡ w → o ≡ some w
word_given none w n h = absurd (n (sym h))
word_given (some s) w n h = ap some h

whole-some : (w : Option (ℤ × String)) (z : ℤ) → whole w ≡ some z → w ≡ some (z, "")
whole-some none z h = absurd (cc)
whole-some (some (n, String.[])) z h = ap (λ n. some (n, "")) (ap (λ o. value_or o z) h)
whole-some (some (n, String.◌∷◌ c s)) z h = absurd (cc)

zero_differs : (z : ℤ) → some (pos 0) ≡ some z → pos 0 <ℤ z → ⊥
zero_differs z e p = is_less (subst (λ x. pos 0 <ℤ x) (sym (ap (λ o. value_or o z) e)) p)
  where
    is_less : pos 0 <ℤ pos 0 → ⊥
    is_less q = omega (arith, q)

number_of :
    (P : ℤ → Type 0) (read : String → Option (ℤ × String)) (d : Dict String) (key : String) (z : ℤ)
    → parse_number d key (pos 0) read ≡ some z
    → pos 0 <ℤ z
    → P z
    → HasNumber P read (lookup key d)
unfolding parse_number get_string
number_of P read d key z h p q = by_value (lookup key d) h
  where
    by_value :
        (o : Option String)
        → (if is_empty (value_or o "") then some (pos 0) else whole (read (value_or o ""))) ≡ some z
        → HasNumber P read o
    by_value none e = absurd (zero_differs z e p)
    by_value (some String.[]) e = absurd (zero_differs z e p)
    by_value (some (String.◌∷◌ c s)) e =
        (String.◌∷◌ c s, z, refl, whole-some (read (String.◌∷◌ c s)) z e, q)

brokers_given :
    (d : Dict String)
    → split_csv (get_string d "kafka.brokers") ≢ []
    → HasText (lookup "kafka.brokers" d)
unfolding split_csv trimmed_items split_on get_string
brokers_given d h = text_given (lookup "kafka.brokers" d) (λ e. h (ap split_csv e))

-- The values that `config_of` reads are acceptable if it accepts the result.
config_of-IsAcceptable :
    (N : DoubleText) (d : Dict String) (c : AppConfig)
    → config_of N d ≡ some c
    → (validate c).valid ≡ true
    → IsAcceptable N (λ key. lookup key d)
unfolding config_of get_string
config_of-IsAcceptable N d c h ok =
    let (
      _, _, a, b, e, f, g, i, j, k, _, _, read_a, read_b, read_e, read_f, read_g, read_i, read_j,
      read_k, built,
    ) =
      parsed (get_int d "redis.port" (pos 6379)) (get_int d "postgres.port" (pos 5432))
        (get_double N d "risk.max_order_quantity" (pos 0))
        (get_double N d "risk.max_order_notional" (pos 0))
        (get_double N d "risk.max_position_quantity" (pos 0))
        (get_int64 d "risk.stale_after_ms" (pos 0))
        (get_double N d "strategy.trigger_price" (pos 0))
        (get_double N d "strategy.order_quantity" (pos 0))
        (get_double N d "simulation.partial_fill_threshold" (pos 0))
        (get_double N d "simulation.partial_fill_ratio" (pos 0)) (config_with d) c h in
    let v = subst IsComplete (sym built) (valid-IsComplete c ok) in
    record {
      texts =
          text_given _ v.mode
          ⊳ text_given _ v.redis_host
          ⊳ text_given _ v.postgres_host
          ⊳ text_given _ v.postgres_database
          ⊳ text_given _ v.postgres_user
          ⊳ brokers_given d v.brokers
          ⊳ text_given _ v.topic
          ⊳ text_given _ v.group
          ⊳ text_given _ v.strategy
          ⊳ text_given _ v.trigger
          ⊳ tt;
      numbers =
          number_of _ N.read_double d _ a read_a v.quantity_limit v.quantity_limit
          ⊳ number_of _ N.read_double d _ b read_b v.notional_limit v.notional_limit
          ⊳ number_of _ N.read_double d _ e read_e v.position_limit v.position_limit
          ⊳ number_of _ N.read_double d _ g read_g v.trigger_price v.trigger_price
          ⊳ number_of _ N.read_double d _ i read_i v.order_quantity v.order_quantity
          ⊳ number_of _ N.read_double d _ j read_j v.threshold v.threshold
          ⊳ tt;
      stale = number_of _ (read_integer int64_bound) d _ f read_f v.stale_limit v.stale_limit;
      ratio = number_of _ N.read_double d _ k read_k v.ratio (v.ratio, v.ratio_bound);
      side = elim v.side [
        | inl w ↦ inl (word_given _ "buy" (ne_of_test "buy" "" refl) w)
        | inr w ↦ inr (word_given _ "sell" (ne_of_test "sell" "" refl) w)
      ];
    }

-- When a file is loaded and the configuration is accepted, each of nineteen keys has a value, taken from
-- the variable of an older name if there is one that is set, else from the variable that is named
-- after the key, else from the file. The mode, the hosts, the database and its user, the brokers, the topic,
-- the group, and the identifiers of the strategy and of its instrument are texts that are not
-- empty; the limits of the risk, the price and the quantity of the strategy, and the threshold and the
-- ratio of the simulation are texts that are read whole as positive numbers, the ratio as one of at
-- most one; and the side is buy or sell.
pub load_from_file-IsAcceptable :
    (N : DoubleText) (getenv : String → Option String) (text : String) (c : AppConfig)
    → load_from_file N getenv (some text) ≡ some c
    → (validate c).valid ≡ true
    → (d : Dict String) × (read_config_lines (lines_of text) [] ≡ some d)
      × IsAcceptable N (λ key.
        first_of
          (by_older_variable getenv key)
          (first_of (by_variable getenv known_keys key) (lookup key d)))
unfolding load_from_file
load_from_file-IsAcceptable N getenv text c h ok =
    let (d, e, g) =
      bind_some (read_config_lines (lines_of text) []) (λ d. config_of N (overridden getenv d)) c
        h in
    (
      d,
      e,
      subst (IsAcceptable N) (fun_ext (lookup-overridden getenv d))
          (config_of-IsAcceptable N (overridden getenv d) c g ok),
    )
