-- ===== src/Strategy.antt =====
-- src/strategy/strategy_coordinator.cpp: strategies that share one stream of events. A strategy is a
-- state, and its handler returns the new state with the requests, or `none` when it throws.
pub mod Threshold
pub mod SpreadCapture
pub mod Isolation
use wall.Core.{EngineEvent, OrderRequest}
use wall.MarketData.{MarketStateStore}
use wall.Prelude.{
  Bool, List, Option, String, [], false, if◌then◌else◌, inc_u64, ite, length, map, none, some, true,
  ℕ, ◌%◌, ◌++◌, ◌+◌, ◌^◌, ◌∷◌,
}
use wall.Prelude.Text.{dec_str}

pub record StrategyRuntimeStats : Type 0 where
  pub strategy_id : String
  pub handled_events : ℕ
  pub emitted_requests : ℕ
  pub failures : ℕ
  pub paused : Bool

pub record StrategySlot {ℓ} (S : Type ℓ) : Type ℓ where
  pub strategy : S
  pub stats : StrategyRuntimeStats

-- `IStrategy`
pub record StrategyInterface {ℓ} (S : Type ℓ) : Type ℓ where
  pub id_of : S → String
  pub on_event : S → EngineEvent → MarketStateStore → S × Option (List OrderRequest)

abbrev pub add_u64 : ℕ → ℕ → ℕ
add_u64 a b = (a + b) % 2 ^ 64

module _ {ℓ} {S : Type ℓ} (I : StrategyInterface S) where
  unfoldable pub add_strategy : List (StrategySlot S) → S → List (StrategySlot S)
  add_strategy slots s =
      slots
      ++ ((record {
        strategy = s;
        stats = record {
          strategy_id = I.id_of s;
          handled_events = 0;
          emitted_requests = 0;
          failures = 0;
          paused = false;
        };
      })
          ∷ [])

  -- One slot of the loop of `on_event`, and the requests that it adds.
  abbrev pub answered :
      StrategySlot S → S × Option (List OrderRequest) → StrategySlot S × List OrderRequest
  answered slot (s, none) = (
    record {
      strategy = s;
      stats = record slot.stats {
        handled_events = inc_u64 slot.stats.handled_events;
        failures = inc_u64 slot.stats.failures;
        paused = true;
      };
    },
    [],
  )
  answered slot (s, some requests) = (
    record {
      strategy = s;
      stats = record slot.stats {
        handled_events = inc_u64 slot.stats.handled_events;
        emitted_requests = add_u64 slot.stats.emitted_requests (length requests);
      };
    },
    requests,
  )

  abbrev pub handle_slot :
      EngineEvent → MarketStateStore → StrategySlot S → StrategySlot S × List OrderRequest
  handle_slot e d slot =
      if slot.stats.paused then (slot, []) else answered slot (I.on_event slot.strategy e d)

  unfoldable pub on_event :
      EngineEvent
      → MarketStateStore
      → List (StrategySlot S)
      → List (StrategySlot S) × List OrderRequest
  on_event e d [] = ([], [])
  on_event e d (slot ∷ slots) =
      let (slot', requests) = handle_slot e d slot in
      let (slots', more) = on_event e d slots in (slot' ∷ slots', requests ++ more)

module _ {ℓ} {S : Type ℓ} where
  unfoldable pub active_strategy_count : List (StrategySlot S) → ℕ
  active_strategy_count [] = 0
  active_strategy_count (slot ∷ slots) =
      let rest = active_strategy_count slots in if slot.stats.paused then rest else inc_u64 rest

  abbrev pub all_stats : List (StrategySlot S) → List StrategyRuntimeStats
  all_stats = map (λ slot. slot.stats)

  abbrev pub with_paused : Bool → StrategySlot S → StrategySlot S
  with_paused b slot = record slot { stats = record slot.stats { paused = b } }

  -- `pause_strategy` and `resume_strategy` differ in the value that they assign.
  unfoldable pub assign_paused :
      Bool → String → List (StrategySlot S) → List (StrategySlot S) × Bool
  assign_paused b k [] = ([], false)
  assign_paused b k (slot ∷ slots) =
      ite (dec_str slot.stats.strategy_id k) (with_paused b slot ∷ slots, true)
        (let (slots', found) = assign_paused b k slots in (slot ∷ slots', found))

  unfoldable pub pause_strategy : String → List (StrategySlot S) → List (StrategySlot S) × Bool
  unfolding assign_paused
  pause_strategy k slots = assign_paused true k slots

  unfoldable pub resume_strategy : String → List (StrategySlot S) → List (StrategySlot S) × Bool
  unfolding assign_paused
  resume_strategy k slots = assign_paused false k slots

  unfoldable pub is_paused : String → List (StrategySlot S) → Bool
  is_paused k [] = false
  is_paused k (slot ∷ slots) =
      ite (dec_str slot.stats.strategy_id k) slot.stats.paused (is_paused k slots)
