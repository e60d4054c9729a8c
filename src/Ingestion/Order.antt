-- ===== src/Ingestion/Order.antt =====
-- The order in which src/ingestion/transaction_ingestor.cpp stores, publishes and commits, whatever
-- call throws.
use wall.Core.{TransactionCommand}
use wall.Ingestion.{
  Effect, Observers, commit_offset, counted, handled, handling, is_valid, perform, process_next,
  publish, save_processed, save_received,
}
use wall.Prelude.{
  Bool, Bool-cases, List, [], ap, arith, false, inl, inr, ite, refl, some, sym, true, ◌∙◌, ◌∷◌, ◌≡◌,
}
use wall.Prelude.Text.{dec_str}

-- How far a command has come, and `out_of_order` for a call that came too early.
pub data Phase : Type 0 where
  waiting received published turned_away processed committed out_of_order : Phase

-- Only a save, a publication and a commit move the phase.
abbrev pub next_phase : Phase → Effect → Phase
next_phase out_of_order e = out_of_order
next_phase waiting (save_received c) = received
next_phase f (save_received c) = out_of_order
next_phase received (publish c) = published
next_phase f (publish c) = out_of_order
next_phase received (save_processed id st) = ite (dec_str st "rejected") turned_away out_of_order
next_phase published (save_processed id st) = ite (dec_str st "processed") processed out_of_order
next_phase f (save_processed id st) = out_of_order
next_phase turned_away (commit_offset c) = committed
next_phase processed (commit_offset c) = committed
next_phase f (commit_offset c) = out_of_order
next_phase f e = f

unfoldable pub phase_after : Phase → List Effect → Phase
phase_after f [] = f
phase_after f (e ∷ es) = phase_after (next_phase f e) es

abbrev pub in_order : Phase → Bool
in_order out_of_order = false
in_order f = true

stays_out : (es : List Effect) → phase_after out_of_order es ≡ out_of_order
unfolding phase_after
stays_out [] = refl
stays_out (e ∷ es) = stays_out es

phase_of_counted : (o : Observers) (e : Effect) (f : Phase) → phase_after f (counted o e) ≡ f
unfolding phase_after
phase_of_counted o e f = ground arith

in_order-start :
    (f : Phase) (es : List Effect) → in_order (phase_after f es) ≡ true → in_order f ≡ true
in_order-start out_of_order es h = ap in_order (sym (stays_out es)) ∙ h
in_order-start waiting es h = refl
in_order-start received es h = refl
in_order-start published es h = refl
in_order-start turned_away es h = refl
in_order-start processed es h = refl
in_order-start committed es h = refl

-- Where the whole sequence is in order, so is every part of it that is performed.
perform-in_order :
    (throws : Effect → Bool) (o : Observers) (es : List Effect) (f : Phase)
    → in_order (phase_after f es) ≡ true
    → in_order (phase_after f (perform throws o es).0) ≡ true
unfolding phase_after perform
perform-in_order throws o [] f h = h
perform-in_order throws o (e ∷ es) f h = elim (Bool-cases (throws e)) [
  | inl t ↦ ground (arith, phase_of_counted o e f, in_order-start f (e ∷ es) h)
  | inr t ↦ ground (arith, perform-in_order throws o es (next_phase f e) h)
]

perform-all :
    (throws : Effect → Bool) (o : Observers) (es : List Effect)
    → (perform throws o es).1 ≡ true
    → (perform throws o es).0 ≡ es
unfolding perform
perform-all throws o [] h = refl
perform-all throws o (e ∷ es) h = ground (arith, perform-all throws o es)

handling-committed :
    (o : Observers) (c : TransactionCommand) → phase_after waiting (handling o c) ≡ committed
unfolding handling phase_after
handling-committed o c = ground arith

-- Whatever call throws, the ingestor stores a command before it publishes it, publishes it before it
-- stores it as processed, and commits its offset only after it stored it as processed or, without a publication,
-- as rejected; and a command that was handled to the end is committed.
pub process_next-in_order :
    (throws : Effect → Bool) (o : Observers) (c : TransactionCommand)
    → (in_order (phase_after waiting (process_next throws o (some c)).0) ≡ true)
      × ((process_next throws o (some c)).1 ≡ handled
          → phase_after waiting (process_next throws o (some c)).0 ≡ committed)
unfolding process_next
process_next-in_order throws o c = (
  perform-in_order throws o (handling o c) waiting (ap in_order (handling-committed o c)),
  λ h.
      ap (phase_after waiting) (perform-all throws o (handling o c) (ended h))
      ∙ handling-committed o c,
)
  where
    ended :
        (process_next throws o (some c)).1 ≡ handled → (perform throws o (handling o c)).1 ≡ true
    ended h = ground arith

abbrev pub has_publish : List Effect → Bool
has_publish [] = false
has_publish (publish c ∷ es) = true
has_publish (e ∷ es) = has_publish es

counted-no_publish : (o : Observers) (e : Effect) → has_publish (counted o e) ≡ false
counted-no_publish o e = ground arith

perform-no_publish :
    (throws : Effect → Bool) (o : Observers) (es : List Effect)
    → has_publish es ≡ false
    → has_publish (perform throws o es).0 ≡ false
unfolding perform
perform-no_publish throws o [] h = refl
perform-no_publish throws o (e ∷ es) h =
    ground (arith, perform-no_publish throws o es, counted-no_publish o e)

refused-no_publish :
    (o : Observers) (c : TransactionCommand)
    → is_valid c ≡ false
    → has_publish (handling o c) ≡ false
unfolding handling
refused-no_publish o c h = ground arith

-- A command that the test refuses, for want of an identity, a topic, an offset, an account, a
-- type, a symbol or a positive quantity, is never published, whatever call throws.
pub process_next-invalid :
    (throws : Effect → Bool) (o : Observers) (c : TransactionCommand)
    → is_valid c ≡ false
    → has_publish (process_next throws o (some c)).0 ≡ false
unfolding process_next
process_next-invalid throws o c h =
    perform-no_publish throws o (handling o c) (refused-no_publish o c h)
