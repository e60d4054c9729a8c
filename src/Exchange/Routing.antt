-- ===== src/Exchange/Routing.antt =====
-- The execution router of src/exchange/exchange_router.cpp against adapters that stand alone.
use Prim.Native.String.{◌++◌ as ◌<>◌}
use mathlib.Core.Option
use wall.Core.{ExecutionResult, OrderRequest, rejected}
use wall.Core.Arithmetic.{Arithmetic}
use wall.Exchange.ExecutionAdapter.{ExecutionAdapter, adapter_cancel, adapter_submit}
use wall.Exchange.Router.{missing_exchange_result, put_back, route_cancel, route_submit}
use wall.Prelude.{
  List, Option, Option-cases, String, [], ap, arith, foldl, inl, inr, ite, none, refl, some, ◌∙◌,
  ◌∷◌, ◌≡◌, ◌≢◌,
}
use wall.Prelude.Dict.{Dict, lookup, lookup-insert_ne, lookup-insert_self}
use wall.Prelude.Int.{pos}
use wall.Prelude.Text.{dec_str}

pub data RouterCall : Type 0 where
  submits : OrderRequest → RouterCall
  cancels : String → String → String → RouterCall

-- The exchange that a call is for.
abbrev pub exchange_of : RouterCall → String
exchange_of (submits r) = r.instrument.exchange
exchange_of (cancels name id client_id) = name

abbrev pub refused_id : RouterCall → String
refused_id (submits r) = r.request_id
refused_id (cancels name id client_id) = id

abbrev pub refused_client : RouterCall → String
refused_client (submits r) = ""
refused_client (cancels name id client_id) = client_id

-- The answer to a call for an exchange that is not there: one rejected update with the reason.
abbrev pub rejection : RouterCall → ExecutionResult
rejection c = record {
  order_id = refused_id c;
  client_order_id = refused_client c;
  updates =
      (record {
        order_id = refused_id c;
        client_order_id = refused_client c;
        status = rejected;
        filled_quantity = pos 0;
        reason = some ("no execution adapter registered for exchange " <> exchange_of c);
      })
      ∷ [];
  fills = [];
}

-- The calls of a list that are for one exchange.
unfoldable pub addressed : String → List RouterCall → List RouterCall
addressed name [] = []
addressed name (c ∷ cs) =
    ite (dec_str name (exchange_of c)) (c ∷ addressed name cs) (addressed name cs)

module _ (A : Arithmetic) where
  abbrev pub routed : Dict ExecutionAdapter → RouterCall → Dict ExecutionAdapter × ExecutionResult
  routed d (submits r) = route_submit A d r
  routed d (cancels name id client_id) = route_cancel d name id client_id

  abbrev pub adapter_call : ExecutionAdapter → RouterCall → ExecutionAdapter × ExecutionResult
  adapter_call a (submits r) = adapter_submit A a r
  adapter_call a (cancels name id client_id) = adapter_cancel a id client_id

  -- The router after calls, and an adapter after calls of its own.
  abbrev pub router_after : Dict ExecutionAdapter → List RouterCall → Dict ExecutionAdapter
  router_after = foldl (λ d c. (routed d c).0)

  abbrev pub adapter_after : ExecutionAdapter → List RouterCall → ExecutionAdapter
  adapter_after = foldl (λ a c. (adapter_call a c).0)

  -- The answer of an adapter, or the rejection where there is none.
  abbrev pub answer_of : RouterCall → Option ExecutionAdapter → ExecutionResult
  answer_of c none = rejection c
  answer_of c (some a) = (adapter_call a c).1

  routed-none :
      (d : Dict ExecutionAdapter) (c : RouterCall)
      → lookup (exchange_of c) d ≡ none
      → routed d c ≡ (d, rejection c)
  unfolding route_submit route_cancel missing_exchange_result
  routed-none d (submits r) e = rw (route_submit, e) refl
  routed-none d (cancels name id client_id) e = rw (route_cancel, e) refl

  routed-some :
      (d : Dict ExecutionAdapter) (c : RouterCall) (a : ExecutionAdapter)
      → lookup (exchange_of c) d ≡ some a
      → routed d c ≡ put_back (exchange_of c) d (adapter_call a c)
  unfolding route_submit route_cancel
  routed-some d (submits r) a e = rw (route_submit, e) refl
  routed-some d (cancels name id client_id) a e = rw (route_cancel, e) refl

  answer-routed :
      (d : Dict ExecutionAdapter) (c : RouterCall)
      → (routed d c).1 ≡ answer_of c (lookup (exchange_of c) d)
  answer-routed d c = elim (Option-cases (lookup (exchange_of c) d)) [
    | inl e ↦ rw (routed-none d c e, e) refl
    | inr (a, e) ↦ rw (routed-some d c a e, e) refl
  ]

  routed_self :
      (d : Dict ExecutionAdapter) (c : RouterCall)
      → lookup (exchange_of c) (routed d c).0
        ≡ Option.map (λ a. (adapter_call a c).0) (lookup (exchange_of c) d)
  routed_self d c = elim (Option-cases (lookup (exchange_of c) d)) [
    | inl e ↦ ap (λ x. lookup (exchange_of c) x.0) (routed-none d c e) ∙ (rw e refl)
    | inr (a, e) ↦
        ap (λ x. lookup (exchange_of c) x.0) (routed-some d c a e)
        ∙ lookup-insert_self (exchange_of c) (adapter_call a c).0 d
        ∙ (rw e refl)
  ]

  routed_other :
      (name : String) (d : Dict ExecutionAdapter) (c : RouterCall)
      → name ≢ exchange_of c
      → lookup name (routed d c).0 ≡ lookup name d
  routed_other name d c n = elim (Option-cases (lookup (exchange_of c) d)) [
    | inl e ↦ ap (λ x. lookup name x.0) (routed-none d c e)
    | inr (a, e) ↦
        ap (λ x. lookup name x.0) (routed-some d c a e)
        ∙ lookup-insert_ne name (exchange_of c) (adapter_call a c).0 d n
  ]

  map-addressed :
      (name : String) (c : RouterCall) (cs : List RouterCall) (old new : Option ExecutionAdapter)
      → new ≡ ite (dec_str name (exchange_of c)) (Option.map (λ a. (adapter_call a c).0) old) old
      → Option.map (λ a. adapter_after a (addressed name cs)) new
        ≡ Option.map (λ a. adapter_after a (addressed name (c ∷ cs))) old
  unfolding addressed
  map-addressed name c cs none new h = ground arith
  map-addressed name c cs (some a) new h = ground arith

  routed-lookup :
      (name : String) (d : Dict ExecutionAdapter) (c : RouterCall)
      → lookup name (routed d c).0
        ≡ ite
            (dec_str name (exchange_of c))
            (Option.map (λ a. (adapter_call a c).0) (lookup name d))
            (lookup name d)
  routed-lookup name d c = elim (dec_str name (exchange_of c)) [
    | yes e ↦ ground (arith, routed_self d c)
    | no n ↦ ground (arith, routed_other name d c n)
  ]

  router_after-lookup :
      (name : String) (d : Dict ExecutionAdapter) (cs : List RouterCall)
      → lookup name (router_after d cs)
        ≡ Option.map (λ a. adapter_after a (addressed name cs)) (lookup name d)
  unfolding addressed
  router_after-lookup name d [] = elim (Option-cases (lookup name d)) [
    | inl e ↦ rw e refl
    | inr (a, e) ↦ rw e refl
  ]
  router_after-lookup name d (c ∷ cs) =
      router_after-lookup name (routed d c).0 cs
      ∙ map-addressed name c cs (lookup name d) (lookup name (routed d c).0)
          (routed-lookup name d c)

  -- After any calls of the router, each exchange has the adapter that stands after the calls for this
  -- exchange alone, in their order, and no exchange is added or lost; and the answer to one more call is
  -- that of this adapter, or, for an exchange that has none, one rejected update of no filled quantity
  -- that names the exchange, without a fill.
  pub routed_refines :
      (d : Dict ExecutionAdapter) (cs : List RouterCall) (c : RouterCall)
      → ((name : String)
          → lookup name (router_after d cs)
            ≡ Option.map (λ a. adapter_after a (addressed name cs)) (lookup name d))
        × ((routed (router_after d cs) c).1
            ≡ answer_of c (
                Option.map
                  (λ a. adapter_after a (addressed (exchange_of c) cs))
                  (lookup (exchange_of c) d)))
  routed_refines d cs c = (
    λ name. router_after-lookup name d cs,
    answer-routed (router_after d cs) c
        ∙ ap (answer_of c) (router_after-lookup (exchange_of c) d cs),
  )
