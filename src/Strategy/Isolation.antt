-- ===== src/Strategy/Isolation.antt =====
-- What src/strategy/strategy_coordinator.cpp promises of strategies that share a stream.
use mathlib.Core.List.{append_assoc}
use wall.Core.{EngineEvent}
use wall.MarketData.{MarketStateStore}
use wall.Prelude.{Bool, List, String, [], arith, false, none, refl, ◌&&◌, ◌++◌, ◌∷◌, ◌≡◌}
use wall.Strategy.{StrategyInterface, StrategySlot, assign_paused, handle_slot, is_paused, on_event}

module _ {ℓ} {S : Type ℓ} (I : StrategyInterface S) where
  -- Each strategy handles an event as if it were alone: what the strategies of two groups do together is
  -- what each group does, and the requests of the first group come first.
  pub on_event-append :
      (e : EngineEvent) (d : MarketStateStore) (xs ys : List (StrategySlot S))
      → on_event I e d (xs ++ ys) ≡ (
        (on_event I e d xs).0 ++ (on_event I e d ys).0,
        (on_event I e d xs).1 ++ (on_event I e d ys).1,
      )
  unfolding on_event
  on_event-append e d [] ys = refl
  on_event-append e d (x ∷ xs) ys = ground (
    arith,
    on_event-append e d xs ys,
    append_assoc (handle_slot I e d x).1 (on_event I e d xs).1 (on_event I e d ys).1,
  )

  -- A strategy that is not paused and throws adds no request, and from then on it stays as it is
  -- and adds none, whatever events come.
  pub handle_slot-failed :
      (slot : StrategySlot S) (e : EngineEvent) (d : MarketStateStore)
      → slot.stats.paused ≡ false
      → (I.on_event slot.strategy e d).1 ≡ none
      → ((handle_slot I e d slot).1 ≡ [])
        × ((e' : EngineEvent) (d' : MarketStateStore)
            → handle_slot I e' d' (handle_slot I e d slot).0 ≡ ((handle_slot I e d slot).0, []))
  handle_slot-failed slot e d p h = (ground arith, λ e' d'. ground arith)

module _ {ℓ} {S : Type ℓ} where
  -- After a pause an identifier is paused exactly when the pause found a strategy that has it,
  -- and after a resume it is not paused.
  pub is_paused-assign_paused :
      (b : Bool) (k : String) (slots : List (StrategySlot S))
      → is_paused k (assign_paused b k slots).0 ≡ (b && (assign_paused b k slots).1)
  unfolding is_paused assign_paused
  is_paused-assign_paused b k [] = ground arith
  is_paused-assign_paused b k (x ∷ xs) = ground (arith, is_paused-assign_paused b k xs)
