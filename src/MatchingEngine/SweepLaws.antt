-- ===== src/MatchingEngine/SweepLaws.antt =====
-- What `process_market_event` (src/execution/matching_engine.cpp) promises of a whole market event.
use wall.Core.{
  BookLevel, Double, ExecutionResult, Instrument, MarketEvent, OrderRecord, OrderSide, buy, sell,
}
use wall.MatchingEngine.{MatchingEngine, append_order_update}
use wall.MatchingEngine.Books.{BookAt, HasValidBooks, insert-HasValidBooks}
use wall.MatchingEngine.Outcome.{left_of, total_quantity, total_quantity-snoc}
use wall.MatchingEngine.Residual.{FrontFill-instrument}
use wall.MatchingEngine.Sweep.{
  Sweep, append_order_updates, empty_result, process_in_book, process_market_event, sort_unique,
  sweep_book, sweep_fuel, sweep_level, sweep_levels, sweep_start,
}
use wall.MatchingEngine.SweepRounds.{SweepRound, sweep_level_inv, swept_quantity}
use wall.OrderBook.{OrderBook}
use wall.OrderBook.Validity.{IsValid}
use wall.Prelude.{List, Option, String, [], ap, arith, none, refl, some, subst, sym, ◌∙◌, ◌∷◌, ◌≡◌}
use wall.Prelude.Dict.{Dict, lookup}
use wall.Prelude.Int.{+ℤ_parts, int_laws, max_ℤ, neg_part, pos, pos_part, ◌+ℤ◌, ◌-ℤ◌, ◌≤ℤ◌}

abbrev pub nonneg : Double → Double
nonneg a = max_ℤ (pos 0) a

-- What the levels of a venue offer; a negative quantity offers nothing.
unfoldable pub offered : List BookLevel → Double
offered [] = pos 0
offered (l ∷ ls) = nonneg l.quantity +ℤ offered ls

-- What the loop of a level keeps, from the sweep `s0` on.
record LevelRun (level : BookLevel) (s0 s : Sweep) (available : Double) : Type 0 where
  conserved :
      total_quantity s.fills +ℤ nonneg available ≡ total_quantity s0.fills +ℤ nonneg level.quantity
  instrument_is : s.book.instrument ≡ s0.book.instrument

LevelRun-round :
    (side : OrderSide) (event : MarketEvent) (level : BookLevel) (s0 : Sweep)
    (available available' : Double) (s s' : Sweep)
    → IsValid s.book
    → SweepRound side event level available s s' available'
    → LevelRun level s0 s available
    → LevelRun level s0 s' available'
LevelRun-round side event level s0 available available' s s' v m h =
    let x : Double = swept_quantity available m.o in
    let le : x ≤ℤ available = ground arith in
    let big : nonneg available ≡ available = ground (arith, m.enough) in
    let left : available' ≡ available -ℤ x = m.available_is ∙ left_of available x le in
    let still : nonneg available' ≡ available' = ground (arith, m.available_is) in
    record {
      conserved =
          rw (m.fills_are, total_quantity-snoc, still, left)
            (omega (
              int_laws,
              ap pos_part (sym (ap (λ y. total_quantity s.fills +ℤ y) big) ∙ h.conserved),
              ap neg_part (sym (ap (λ y. total_quantity s.fills +ℤ y) big) ∙ h.conserved),
            ));
      instrument_is = FrontFill-instrument s.book side m.o x s'.book m.fill ∙ h.instrument_is;
    }

-- What a sweep keeps: the book is valid and of the same instrument, and the new fills take no more
-- than the levels offered.
pub record SweptWithin (offer : Double) (s0 s : Sweep) : Type 0 where
  pub valid : IsValid s.book
  pub instrument_is : s.book.instrument ≡ s0.book.instrument
  pub within : total_quantity s.fills ≤ℤ total_quantity s0.fills +ℤ offer

nonneg_lem : (a : Double) → pos 0 ≤ℤ nonneg a
nonneg_lem a = ground arith

without_rest : (x a y : Double) → x +ℤ nonneg a ≡ y → x ≤ℤ y
without_rest x a y h = omega (int_laws, nonneg_lem a, ap pos_part h, ap neg_part h)

sweep_level-SweptWithin :
    (side : OrderSide) (event : MarketEvent) (level : BookLevel) (s : Sweep)
    → IsValid s.book
    → SweptWithin
        (nonneg level.quantity)
        s
        (sweep_level (sweep_fuel side s) side event level level.quantity s).0
sweep_level-SweptWithin side event level s v =
    let (valid, run) =
      sweep_level_inv side event level (LevelRun level s)
        (λ a a' t t'. LevelRun-round side event level s a a' t t') (sweep_fuel side s)
        level.quantity s v (record { conserved = refl; instrument_is = refl }) in
    record {
      valid = valid;
      instrument_is = run.instrument_is;
      within =
          without_rest
            (total_quantity
              (sweep_level (sweep_fuel side s) side event level level.quantity s).0.fills)
            (sweep_level (sweep_fuel side s) side event level level.quantity s).1
            (total_quantity s.fills +ℤ nonneg level.quantity) run.conserved;
    }

sweep_levels-SweptWithin :
    (side : OrderSide) (event : MarketEvent) (levels : List BookLevel) (s : Sweep)
    → IsValid s.book
    → SweptWithin (offered levels) s (sweep_levels side event levels s)
unfolding sweep_levels offered
sweep_levels-SweptWithin side event [] s v = record {
  valid = v;
  instrument_is = refl;
  within = omega (arith, +ℤ_parts (total_quantity s.fills) (pos 0));
}
sweep_levels-SweptWithin side event (level ∷ levels) s v =
    let first = sweep_level-SweptWithin side event level s v in
    let s' = (sweep_level (sweep_fuel side s) side event level level.quantity s).0 in
    let others = sweep_levels-SweptWithin side event levels s' first.valid in
    record {
      valid = others.valid;
      instrument_is = others.instrument_is ∙ first.instrument_is;
      within = omega (int_laws, first.within, others.within);
    }

sweep_book-SweptWithin :
    (event : MarketEvent) (s : Sweep)
    → IsValid s.book
    → SweptWithin (offered event.ask_levels +ℤ offered event.bid_levels) s (sweep_book event s)
unfolding sweep_book
sweep_book-SweptWithin event s v =
    let asks = sweep_levels-SweptWithin buy event event.ask_levels s v in
    let bids =
      sweep_levels-SweptWithin sell event event.bid_levels
        (sweep_levels buy event event.ask_levels s) asks.valid in
    record {
      valid = bids.valid;
      instrument_is = bids.instrument_is ∙ asks.instrument_is;
      within = omega (int_laws, asks.within, bids.within);
    }

append_order_update-fills :
    (orders : Dict OrderRecord) (result : ExecutionResult) (k : String)
    → (append_order_update orders result k).fills ≡ result.fills
unfolding append_order_update
append_order_update-fills orders result k = ground arith

append_order_updates-fills :
    (orders : Dict OrderRecord) (result : ExecutionResult) (ks : List String)
    → (append_order_updates orders result ks).fills ≡ result.fills
unfolding append_order_updates
append_order_updates-fills orders result [] = refl
append_order_updates-fills orders result (k ∷ ks) =
    append_order_updates-fills orders (append_order_update orders result k) ks
    ∙ append_order_update-fills orders result k

offered_lem : (ls : List BookLevel) → pos 0 ≤ℤ offered ls
unfolding offered
offered_lem [] = omega arith
offered_lem (l ∷ ls) = omega (int_laws, nonneg_lem l.quantity, offered_lem ls)

in_book-fills :
    (m : MatchingEngine) (event : MarketEvent) (o : Option OrderBook)
    → BookAt event.instrument.instrument_id o
    → total_quantity (process_in_book m event o).1.fills
      ≤ℤ pos 0 +ℤ (offered event.ask_levels +ℤ offered event.bid_levels)
unfolding total_quantity
in_book-fills m event none h =
    let a = offered_lem event.ask_levels in
    let b = offered_lem event.bid_levels in omega (int_laws, a, b)
in_book-fills m event (some b) h =
    let s = sweep_book event (sweep_start m b) in
    subst
      (λ fs. total_quantity fs ≤ℤ pos 0 +ℤ (offered event.ask_levels +ℤ offered event.bid_levels))
      (sym (
        append_order_updates-fills s.orders (record empty_result { fills = s.fills })
          (sort_unique s.touched_orders)))
      (sweep_book-SweptWithin event (sweep_start m b) h.0).within

-- A market event fills no more of the resting orders than the quantity that its levels offer, in all.
-- The engine's books are to be valid.
pub process_market_event-fills :
    (m : MatchingEngine) (event : MarketEvent)
    → HasValidBooks m
    → total_quantity (process_market_event m event).1.fills
      ≤ℤ offered event.ask_levels +ℤ offered event.bid_levels
unfolding process_market_event
process_market_event-fills m event v =
    let h =
      in_book-fills m event (lookup event.instrument.instrument_id m.books)
        (v.book_at event.instrument.instrument_id) in
    omega (int_laws, h)

in_book-HasValidBooks :
    (m : MatchingEngine) (event : MarketEvent) (o : Option OrderBook)
    → BookAt event.instrument.instrument_id o
    → HasValidBooks m
    → HasValidBooks (process_in_book m event o).0
in_book-HasValidBooks m event none h v = v
in_book-HasValidBooks m event (some b) h v =
    let swept = sweep_book-SweptWithin event (sweep_start m b) h.0 in
    insert-HasValidBooks m (process_in_book m event (some b)).0 event.instrument.instrument_id
      (sweep_book event (sweep_start m b)).book v swept.valid
      (ap (λ (i : Instrument). i.instrument_id) swept.instrument_is ∙ h.1) refl

pub process_market_event-HasValidBooks :
    (m : MatchingEngine) (event : MarketEvent)
    → HasValidBooks m
    → HasValidBooks (process_market_event m event).0
unfolding process_market_event
process_market_event-HasValidBooks m event v =
    in_book-HasValidBooks m event (lookup event.instrument.instrument_id m.books)
      (v.book_at event.instrument.instrument_id) v
