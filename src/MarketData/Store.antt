-- ===== src/MarketData/Store.antt =====
-- What src/market_data/market_state_store.cpp promises of the order of events and of other instruments.
use wall.Core.{Int64, MarketEvent}
use wall.MarketData.{
  MarketState, MarketStateStore, apply, apply_all, blank_state, get, is_out_of_order, is_stale,
  next_state, state_of, updated,
}
use wall.Prelude.{
  List, String, [], ap, arith, false, some, subst, sym, value_or, ◌∙◌, ◌∷◌, ◌≡◌, ◌≢◌,
}
use wall.Prelude.Dict.{lookup-insert_ne, lookup-insert_self}
use wall.Prelude.Int.{ltb_ℤ, pos, ◌-ℤ◌, ◌<ℤ◌, ◌≤ℤ◌}
use wall.Prelude.Text.{dec_str}

get-apply_ne :
    (d : MarketStateStore) (e : MarketEvent) (k : String)
    → k ≢ e.instrument.instrument_id
    → get (apply d e) k ≡ get d k
unfolding get apply
get-apply_ne d e k h =
    lookup-insert_ne k e.instrument.instrument_id
      (next_state (state_of d e.instrument.instrument_id) e) d h

get-apply_self :
    (d : MarketStateStore) (e : MarketEvent)
    → get (apply d e) e.instrument.instrument_id
      ≡ some (next_state (state_of d e.instrument.instrument_id) e)
unfolding get apply
get-apply_self d e =
    lookup-insert_self e.instrument.instrument_id
      (next_state (state_of d e.instrument.instrument_id) e) d

next_state-timestamp :
    (s : MarketState) (e : MarketEvent)
    → pos 0 <ℤ s.last_process_timestamp
    → s.last_process_timestamp ≤ℤ (next_state s e).last_process_timestamp
unfolding updated
next_state-timestamp s e h = ground arith

-- The state that an instrument has later.
abbrev pub NoOlder : MarketStateStore → String → MarketState → Type 0
NoOlder d k s =
    (s' : MarketState) × (get d k ≡ some s')
    × (s.last_process_timestamp ≤ℤ s'.last_process_timestamp)

apply-NoOlder :
    (d : MarketStateStore) (e : MarketEvent) (k : String) (s : MarketState)
    → get d k ≡ some s
    → pos 0 <ℤ s.last_process_timestamp
    → NoOlder (apply d e) k s
unfolding get
apply-NoOlder d e k s g h = elim (dec_str k e.instrument.instrument_id) [
  | yes p ↦
      subst (λ j. NoOlder (apply d e) j s) (sym p)
        (
          next_state s e,
          get-apply_self d e
              ∙ ap (λ x. some (next_state (value_or x blank_state) e))
                  (ap (λ j. get d j) (sym p) ∙ g),
          next_state-timestamp s e h,
        )
  | no ne ↦ (s, get-apply_ne d e k ne ∙ g, omega arith)
]

-- Whatever events arrive, in whatever order, an instrument whose process timestamp is positive
-- keeps a state in the store, and its process timestamp never goes back.
pub apply_all-NoOlder :
    (es : List MarketEvent) (d : MarketStateStore) (k : String) (s : MarketState)
    → get d k ≡ some s
    → pos 0 <ℤ s.last_process_timestamp
    → NoOlder (apply_all d es) k s
unfolding apply_all
apply_all-NoOlder [] d k s g h = (s, g, omega arith)
apply_all-NoOlder (e ∷ es) d k s g h =
    let (s1, g1, l1) = apply-NoOlder d e k s g h in
    let (s2, g2, l2) = apply_all-NoOlder es (apply d e) k s1 g1 (omega (arith, l1, h)) in
    (s2, g2, omega (arith, l1, l2))

-- Right after an event that is not out of order, the instrument is stale exactly when more than the limit has passed
-- since the event's process timestamp.
pub is_stale-apply :
    (d : MarketStateStore) (e : MarketEvent) (now_ms stale_after_ms : Int64)
    → is_out_of_order (state_of d e.instrument.instrument_id) e ≡ false
    → is_stale (apply d e) now_ms e.instrument.instrument_id stale_after_ms
      ≡ ltb_ℤ stale_after_ms (now_ms -ℤ e.process_timestamp)
unfolding is_stale updated
is_stale-apply d e now_ms stale_after_ms h = ground (arith, get-apply_self d e)
