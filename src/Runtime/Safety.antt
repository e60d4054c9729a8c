-- ===== src/Runtime/Safety.antt =====
-- What src/app/simulation_runtime.cpp keeps from event to event.
use wall.Core.{
  EngineEvent, ExecutionResult, FillEvent, Int64, OrderRequest, market_event, timer_event,
  transaction_command,
}
use wall.Core.Arithmetic.{Arithmetic}
use wall.MatchingEngine.Books.{HasValidBooks}
use wall.MatchingEngine.SubmitLaws.{submit-HasValidBooks}
use wall.MatchingEngine.SweepLaws.{process_market_event-HasValidBooks}
use wall.Portfolio.{apply_fills}
use wall.Prelude.{Bool-cases, List, [], foldl, inl, inr, refl, subst, sym, true, ◌∷◌, ◌≡◌}
use wall.Risk.{evaluate}
use wall.Runtime.{
  RuntimeSettings, RuntimeState, after_fill, applied_fills, before_requests, counted_metric,
  handle_execution_result, handle_request, market_part, no_latency_seen, on_event, on_market_event,
  persist_market_snapshot, persist_new_order, requests_of, submitted,
}
use wall.Strategy.{StrategyInterface}

module _ {ℓ} {S : Type ℓ} (A : Arithmetic) where
  applied_fills-engine :
      (fs : List FillEvent) (t : RuntimeState S)
      → (applied_fills A t fs).execution_engine ≡ t.execution_engine
  unfolding applied_fills
  applied_fills-engine [] t = refl
  applied_fills-engine (f ∷ fs) t = applied_fills-engine fs (after_fill A t f)

  handle_execution_result-engine :
      (t : RuntimeState S) (result : ExecutionResult)
      → (handle_execution_result A t result).execution_engine ≡ t.execution_engine
  unfolding handle_execution_result
  handle_execution_result-engine t result = applied_fills-engine result.fills _

  applied_fills-portfolio :
      (fs : List FillEvent) (t : RuntimeState S)
      → (applied_fills A t fs).portfolio_service ≡ apply_fills A t.portfolio_service fs
  unfolding applied_fills apply_fills
  applied_fills-portfolio [] t = refl
  applied_fills-portfolio (f ∷ fs) t = applied_fills-portfolio fs (after_fill A t f)

  -- Every fill of a result reaches the portfolio once, in the order of the result, whatever repositories there are.
  pub handle_execution_result-portfolio :
      (t : RuntimeState S) (result : ExecutionResult)
      → (handle_execution_result A t result).portfolio_service
        ≡ apply_fills A t.portfolio_service result.fills
  unfolding handle_execution_result
  handle_execution_result-portfolio t result = applied_fills-portfolio result.fills _

module _ {ℓ} {S : Type ℓ} (G : RuntimeSettings) (now_ms : Int64) where
  submitted-HasValidBooks :
      (t : RuntimeState S) (r : OrderRequest)
      → HasValidBooks t.execution_engine
      → HasValidBooks (submitted G now_ms t r).execution_engine
  unfolding persist_new_order
  submitted-HasValidBooks t r v =
      subst HasValidBooks (sym (handle_execution_result-engine G.arithmetic _ _))
        (submit-HasValidBooks t.execution_engine r v)

  handle_request-HasValidBooks :
      (t : RuntimeState S) (r : OrderRequest)
      → HasValidBooks t.execution_engine
      → HasValidBooks (handle_request G now_ms t r).execution_engine
  unfolding handle_request
  handle_request-HasValidBooks t r v = elim (Bool-cases G.trading_paused) [
    | inl p ↦ rw p v
    | inr p ↦
        elim (Bool-cases
          (evaluate G.arithmetic G.risk_config t.market_state_store now_ms r).approved) [
            | inl a ↦ rw (p, a) (submitted-HasValidBooks _ r v)
            | inr a ↦ rw (p, a) v
          ]
  ]

  requests-HasValidBooks :
      (rs : List OrderRequest) (t : RuntimeState S)
      → HasValidBooks t.execution_engine
      → HasValidBooks (foldl (handle_request G now_ms) t rs).execution_engine
  requests-HasValidBooks [] t v = v
  requests-HasValidBooks (r ∷ rs) t v =
      requests-HasValidBooks rs (handle_request G now_ms t r) (handle_request-HasValidBooks t r v)

  market_part-HasValidBooks :
      (t : RuntimeState S) (e : EngineEvent)
      → HasValidBooks t.execution_engine
      → HasValidBooks (market_part G now_ms t e).execution_engine
  unfolding on_market_event persist_market_snapshot
  market_part-HasValidBooks t (market_event e) v =
      subst HasValidBooks (sym (handle_execution_result-engine G.arithmetic _ _))
        (process_market_event-HasValidBooks t.execution_engine e v)
  market_part-HasValidBooks t (timer_event e) v = v
  market_part-HasValidBooks t (transaction_command c) v = v

  -- Whatever the event is and whatever the strategies ask for, handling the event keeps the books
  -- of the runtime's matching engine valid, when they were.
  pub on_event-HasValidBooks :
      (I : StrategyInterface S) (t : RuntimeState S) (e : EngineEvent)
      → HasValidBooks t.execution_engine
      → HasValidBooks (on_event G now_ms I t e).execution_engine
  unfolding on_event
  on_event-HasValidBooks I t e v =
      requests-HasValidBooks (requests_of G now_ms I t e) (before_requests G now_ms I t e)
        (market_part-HasValidBooks t e v)

  -- The engine, the portfolio, the stored orders and the counts are the same.
  abbrev pub IsUntouched : RuntimeState S → RuntimeState S → Type 0
  IsUntouched t t' =
      (t'.execution_engine ≡ t.execution_engine)
      × (t'.portfolio_service ≡ t.portfolio_service)
      × (t'.order_repository ≡ t.order_repository)
      × (t'.risk_approved_count ≡ t.risk_approved_count)
      × (t'.risk_rejected_count ≡ t.risk_rejected_count)
      × (t'.applied_fill_count ≡ t.applied_fill_count)

  paused_request : RuntimeState S → RuntimeState S
  paused_request t = record t {
    metrics =
        no_latency_seen "order_processing_latency_ms" (counted_metric "orders_paused" t.metrics);
  }

  handle_request-paused :
      (t : RuntimeState S) (r : OrderRequest)
      → G.trading_paused ≡ true
      → handle_request G now_ms t r ≡ paused_request t
  unfolding handle_request paused_request
  handle_request-paused t r p = rw p refl

  requests-paused :
      (rs : List OrderRequest) (t : RuntimeState S)
      → G.trading_paused ≡ true
      → IsUntouched t (foldl (handle_request G now_ms) t rs)
  unfolding paused_request
  requests-paused [] t p = (refl, refl, refl, refl, refl, refl)
  requests-paused (r ∷ rs) t p =
      subst (λ x. IsUntouched t (foldl (handle_request G now_ms) x rs))
        (sym (handle_request-paused t r p)) (requests-paused rs (paused_request t) p)

  -- While trading is paused, the requests of an event change neither the matching engine, the
  -- portfolio, the stored orders nor the counts: these are what the market event itself left.
  pub on_event-paused :
      (I : StrategyInterface S) (t : RuntimeState S) (e : EngineEvent)
      → G.trading_paused ≡ true
      → IsUntouched (market_part G now_ms t e) (on_event G now_ms I t e)
  unfolding on_event
  on_event-paused I t e p =
      requests-paused (requests_of G now_ms I t e) (before_requests G now_ms I t e) p
