-- ===== src/Config/Overrides.antt =====
-- Where the value of a key comes from in src/config/config_loader.cpp.
use wall.Config.Loading.{apply_overrides, env_name_for_key, known_keys, overridden, override_key}
use wall.Prelude.{
  Bool, List, Option, String, [], ap, false, if_neg, if_pos, if◌then◌else◌, ite, none, refl, some,
  sym, true, ◌∙◌, ◌∷◌, ◌≡◌,
}
use wall.Prelude.Dict.{Dict, insert, lookup, lookup-insert_ne, lookup-insert_self}
use wall.Prelude.Sort.{has}
use wall.Prelude.Text.{dec_str}

abbrev pub first_of {ℓ} : {A : Type ℓ} → Option A → Option A → Option A
first_of none o = o
first_of (some a) o = some a

lookup-override_key :
    (j key : String) (o : Option String) (d : Dict String)
    → lookup j (override_key key o d) ≡ first_of (ite (dec_str j key) o none) (lookup j d)
lookup-override_key j key none d = elim (dec_str j key) [
  | yes e ↦ rw (if_pos _ e) refl
  | no n ↦ rw (if_neg _ n) refl
]
lookup-override_key j key (some v) d = elim (dec_str j key) [
  | yes e ↦ rw (if_pos _ e) (ap (λ x. lookup x (insert key v d)) e ∙ lookup-insert_self key v d)
  | no n ↦ rw (if_neg _ n) (lookup-insert_ne j key v d n)
]

-- The override of a known key by its own variable, and the two older variables.
abbrev pub by_variable : (String → Option String) → List String → String → Option String
by_variable getenv ks j = if has j ks then getenv (env_name_for_key j) else none

abbrev pub by_older_variable : (String → Option String) → String → Option String
by_older_variable getenv j =
    first_of
      (ite (dec_str j "risk.kill_switch_enabled") (getenv "TRADING_KILL_SWITCH_ENABLED") none)
      (ite (dec_str j "kafka.transaction_topic") (getenv "TRADING_KAFKA_TOPIC") none)

first_of_again :
    {A : Type 0} (o p : Option A) (b : Bool)
    → first_of (if b then o else none) (first_of o p) ≡ first_of o p
first_of_again none p true = refl
first_of_again none p false = refl
first_of_again (some a) p true = refl
first_of_again (some a) p false = refl

first_of_key :
    (j k : String) (D : Dec (j ≡ k)) (b : Bool) (E : String → Option String) (x : Option String)
    → first_of (if b then E j else none) (first_of (ite D (E k) none) x)
      ≡ first_of (if ite D true b then E j else none) x
first_of_key j k (yes e) b E x =
    ap (λ i. first_of (if b then E j else none) (first_of (E i) x)) (sym e)
    ∙ first_of_again (E j) x b
first_of_key j k (no n) b E x = refl

lookup-apply_overrides :
    (getenv : String → Option String) (ks : List String) (d : Dict String) (j : String)
    → lookup j (apply_overrides getenv ks d) ≡ first_of (by_variable getenv ks j) (lookup j d)
unfolding apply_overrides has
lookup-apply_overrides getenv [] d j = refl
lookup-apply_overrides getenv (k ∷ ks) d j =
    lookup-apply_overrides getenv ks (override_key k (getenv (env_name_for_key k)) d) j
    ∙ ap (first_of (by_variable getenv ks j))
        (lookup-override_key j k (getenv (env_name_for_key k)) d)
    ∙ first_of_key j k (dec_str j k) (has j ks) (λ i. getenv (env_name_for_key i)) (lookup j d)

first_of_assoc :
    {A : Type 0} (o p q : Option A) → first_of o (first_of p q) ≡ first_of (first_of o p) q
first_of_assoc none p q = refl
first_of_assoc (some a) p q = refl

-- The value of each key is that of its older variable if it has one that is set; or else that of the variable
-- that is named after it if it is one of the known keys and this is set; or else that of the file.
pub lookup-overridden :
    (getenv : String → Option String) (d : Dict String) (j : String)
    → lookup j (overridden getenv d)
      ≡ first_of
          (by_older_variable getenv j)
          (first_of (by_variable getenv known_keys j) (lookup j d))
unfolding overridden
lookup-overridden getenv d j =
    lookup-override_key j "risk.kill_switch_enabled" (getenv "TRADING_KILL_SWITCH_ENABLED") _
    ∙ ap
        (first_of
          (ite (dec_str j "risk.kill_switch_enabled") (getenv "TRADING_KILL_SWITCH_ENABLED") none))
        (lookup-override_key j "kafka.transaction_topic" (getenv "TRADING_KAFKA_TOPIC")
            (apply_overrides getenv known_keys d)
          ∙ ap
              (first_of
                (ite (dec_str j "kafka.transaction_topic") (getenv "TRADING_KAFKA_TOPIC") none))
              (lookup-apply_overrides getenv known_keys d j))
    ∙ first_of_assoc
        (ite (dec_str j "risk.kill_switch_enabled") (getenv "TRADING_KILL_SWITCH_ENABLED") none)
        (ite (dec_str j "kafka.transaction_topic") (getenv "TRADING_KAFKA_TOPIC") none)
        (first_of (by_variable getenv known_keys j) (lookup j d))
