-- ===== src/Config/Validity.antt =====
-- What `validate` of src/config/config_loader.cpp accepts.
use mathlib.Core.Bool.{false≢true}
use wall.Config.{AppConfig, accepted, is_nil, not_positive, refused, validate}
use wall.Core.{one}
use wall.Fields.Doubles.{is_empty-false}
use wall.Prelude.{
  Bool, List, String, [], ap, arith, false, if_neg, if◌then◌else◌, inl, inr, not, refl, sym, true,
  ◌&&◌, ◌||◌, ◌∙◌, ◌∷◌, ◌≡◌, ◌≢◌, ◌⊎◌,
}
use wall.Prelude.Int.{ltb_ℤ, pos, ℤ, ◌<ℤ◌, ◌≤ℤ◌}
use wall.Prelude.Text.{dec_str, is_empty, same_text, same_text-eq, same_text_of_eq}

-- What `validate` asks of a configuration. The exchange and the instruments are not among it, though
-- src/app/application.cpp takes the first instrument.
pub record IsComplete (c : AppConfig) : Type 0 where
  pub mode : c.mode ≢ ""
  pub redis_host : c.redis.host ≢ ""
  pub postgres_host : c.postgres.host ≢ ""
  pub postgres_database : c.postgres.database ≢ ""
  pub postgres_user : c.postgres.user ≢ ""
  pub brokers : c.kafka.brokers ≢ []
  pub topic : c.kafka.transaction_topic ≢ ""
  pub group : c.kafka.consumer_group ≢ ""
  pub quantity_limit : pos 0 <ℤ c.risk.max_order_quantity
  pub notional_limit : pos 0 <ℤ c.risk.max_order_notional
  pub position_limit : pos 0 <ℤ c.risk.max_position_quantity
  pub stale_limit : pos 0 <ℤ c.risk.stale_after_ms
  pub strategy : c.strategy.strategy_id ≢ ""
  pub trigger : c.strategy.trigger_instrument_id ≢ ""
  pub trigger_price : pos 0 <ℤ c.strategy.trigger_price
  pub order_quantity : pos 0 <ℤ c.strategy.order_quantity
  pub side : (c.strategy.side ≡ "buy") ⊎ (c.strategy.side ≡ "sell")
  pub threshold : pos 0 <ℤ c.simulation.partial_fill_threshold
  pub ratio : pos 0 <ℤ c.simulation.partial_fill_ratio
  pub ratio_bound : c.simulation.partial_fill_ratio ≤ℤ one

-- The guards of `validate`, in their order.
guards_pass :
    (a b c d e f g h : Bool) (x y z u v w s t : String)
    → (if a
        then refused x
        else if b
        then refused y
        else if c
        then refused z
        else if d
        then refused u
        else if e
        then refused v
        else if f
        then refused w
        else if g
        then refused s
        else if h
        then refused t
        else accepted).valid
      ≡ true
    → (a ≡ false)
      × (b ≡ false)
      × (c ≡ false)
      × (d ≡ false)
      × (e ≡ false)
      × (f ≡ false)
      × (g ≡ false)
      × (h ≡ false)
guards_pass true b c d e f g h x y z u v w s t p = absurd (false≢true p)
guards_pass false true c d e f g h x y z u v w s t p = absurd (false≢true p)
guards_pass false false true d e f g h x y z u v w s t p = absurd (false≢true p)
guards_pass false false false true e f g h x y z u v w s t p = absurd (false≢true p)
guards_pass false false false false true f g h x y z u v w s t p = absurd (false≢true p)
guards_pass false false false false false true g h x y z u v w s t p = absurd (false≢true p)
guards_pass false false false false false false true h x y z u v w s t p = absurd (false≢true p)
guards_pass false false false false false false false true x y z u v w s t p = absurd (false≢true p)
guards_pass false false false false false false false false x y z u v w s t p =
    (refl, refl, refl, refl, refl, refl, refl, refl)

either : (a b : Bool) → (a || b) ≡ false → (a ≡ false) × (b ≡ false)
either a b h = (ground arith, ground arith)

is_empty-ne : (s : String) → is_empty s ≡ false → s ≢ ""
is_empty-ne s h e = absurd (false≢true (sym h ∙ ap is_empty e))

is_nil-ne : {A : Type 0} (xs : List A) → is_nil xs ≡ false → xs ≢ []
is_nil-ne xs h e = absurd (false≢true (sym h ∙ ap is_nil e))

is_nil-false : {A : Type 0} (xs : List A) → xs ≢ [] → is_nil xs ≡ false
is_nil-false [] h = absurd (h refl)
is_nil-false (x ∷ xs) h = refl

positive : (z : ℤ) → not_positive z ≡ false → pos 0 <ℤ z
positive z h = ground arith

not_positive-false : (z : ℤ) → pos 0 <ℤ z → not_positive z ≡ false
not_positive-false z h = ground arith

bounded : (a b : ℤ) → ltb_ℤ a b ≡ false → b ≤ℤ a
bounded a b h = ground arith

ltb_ℤ-false : (a b : ℤ) → b ≤ℤ a → ltb_ℤ a b ≡ false
ltb_ℤ-false a b h = ground arith

known_side :
    (s : String)
    → (not (same_text s "buy") && not (same_text s "sell")) ≡ false
    → (s ≡ "buy") ⊎ (s ≡ "sell")
known_side s h = elim (dec_str s "buy") [
  | yes e ↦ inl e
  | no n ↦ inr (same_text-eq s "sell" (ground (arith, if_neg (dec_str s "buy") n true false)))
]

side_known :
    (s : String)
    → (s ≡ "buy") ⊎ (s ≡ "sell")
    → (not (same_text s "buy") && not (same_text s "sell")) ≡ false
side_known s (inl e) = rw (same_text_of_eq s "buy" e) refl
side_known s (inr e) = rw (same_text_of_eq s "sell" e) (ground arith)

pub valid-IsComplete : (c : AppConfig) → (validate c).valid ≡ true → IsComplete c
unfolding validate
valid-IsComplete c h =
    let (a, b, d, e, f, g, i, j) = guards_pass _ _ _ _ _ _ _ _ _ _ _ _ _ _ _ _ h in
    let (d1, d2) = either _ _ d in
    let (d3, d4) = either _ _ d2 in
    let (e1, e2) = either _ _ e in
    let (e3, e4) = either _ _ e2 in
    let (f1, f2) = either _ _ f in
    let (f3, f4) = either _ _ f2 in
    let (f5, f6) = either _ _ f4 in
    let (g1, g2) = either _ _ g in
    let (g3, g4) = either _ _ g2 in
    let (g5, g6) = either _ _ g4 in
    let (j1, j2) = either _ _ j in
    let (j3, j4) = either _ _ j2 in
    record {
      mode = is_empty-ne _ a;
      redis_host = is_empty-ne _ b;
      postgres_host = is_empty-ne _ d1;
      postgres_database = is_empty-ne _ d3;
      postgres_user = is_empty-ne _ d4;
      brokers = is_nil-ne _ e1;
      topic = is_empty-ne _ e3;
      group = is_empty-ne _ e4;
      quantity_limit = positive _ f1;
      notional_limit = positive _ f3;
      position_limit = positive _ f5;
      stale_limit = positive _ f6;
      strategy = is_empty-ne _ g1;
      trigger = is_empty-ne _ g3;
      trigger_price = positive _ g5;
      order_quantity = positive _ g6;
      side = known_side _ i;
      threshold = positive _ j1;
      ratio = positive _ j3;
      ratio_bound = bounded one c.simulation.partial_fill_ratio j4;
    }

IsComplete-accepted : (c : AppConfig) → IsComplete c → validate c ≡ accepted
unfolding validate
IsComplete-accepted c h =
    rw
      (
        is_empty-false c.mode h.mode,
        is_empty-false c.redis.host h.redis_host,
        is_empty-false c.postgres.host h.postgres_host,
        is_empty-false c.postgres.database h.postgres_database,
        is_empty-false c.postgres.user h.postgres_user,
        is_nil-false c.kafka.brokers h.brokers,
        is_empty-false c.kafka.transaction_topic h.topic,
        is_empty-false c.kafka.consumer_group h.group,
        not_positive-false c.risk.max_order_quantity h.quantity_limit,
        not_positive-false c.risk.max_order_notional h.notional_limit,
        not_positive-false c.risk.max_position_quantity h.position_limit,
        not_positive-false c.risk.stale_after_ms h.stale_limit,
        is_empty-false c.strategy.strategy_id h.strategy,
        is_empty-false c.strategy.trigger_instrument_id h.trigger,
        not_positive-false c.strategy.trigger_price h.trigger_price,
        not_positive-false c.strategy.order_quantity h.order_quantity,
        side_known c.strategy.side h.side,
        not_positive-false c.simulation.partial_fill_threshold h.threshold,
        not_positive-false c.simulation.partial_fill_ratio h.ratio,
        ltb_ℤ-false one c.simulation.partial_fill_ratio h.ratio_bound,
      )
      refl

-- `validate` accepts exactly the configurations that have what it asks for, without an error.
pub validate-IsComplete :
    (c : AppConfig)
    → ((validate c).valid ≡ true → IsComplete c) × (IsComplete c → validate c ≡ accepted)
validate-IsComplete c = (valid-IsComplete c, IsComplete-accepted c)
