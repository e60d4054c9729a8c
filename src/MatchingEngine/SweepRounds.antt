-- ===== src/MatchingEngine/SweepRounds.antt =====
-- The inner loop of `process_market_event` (src/execution/matching_engine.cpp): what one round does,
-- and that the fuel is enough for the loop to end by its own tests.
use wall.Core.{BookLevel, Double, MarketEvent, OrderSide, quantity_tolerance}
use wall.MatchingEngine.{apply_fill_to_order, resting_count}
use wall.MatchingEngine.Matches.{FrontFill-count, best_order-front}
use wall.MatchingEngine.Rounds.{FrontFill, FrontFill-IsValid, apply_fill-FrontFill}
use wall.MatchingEngine.Sweep.{Sweep, maker_fill, out_of_reach, sweep_level, sweep_step}
use wall.OrderBook.{OrderBook, front_order, levels_of}
use wall.OrderBook.Front.{front_order-FrontFound}
use wall.OrderBook.PriceLevels.{RestingOrder}
use wall.OrderBook.Validity.{IsValid}
use wall.Prelude.{
  Bool-cases, Option-cases, [], arith, false, inc_u64, inl, inr, none, refl, some, suc, true, zero,
  ℕ, ◌++◌, ◌<◌, ◌∷◌, ◌≡◌, ◌⊎◌,
}
use wall.Prelude.Int.{leb_ℤ, ltb_ℤ, max_ℤ, min_ℤ, pos, ◌-ℤ◌, ◌<ℤ◌, ◌≤ℤ◌, -ℤ_parts}

abbrev pub swept_quantity : Double → RestingOrder → Double
swept_quantity available o = min_ℤ available o.remaining_quantity

-- A round that filled a resting order.
pub record SweepRound (side : OrderSide) (event : MarketEvent) (level : BookLevel)
    (available : Double) (s s' : Sweep) (available' : Double) : Type 0 where
  pub o : RestingOrder
  pub front : front_order (levels_of side s.book) ≡ some o
  pub within : out_of_reach side o.request.price level.price ≡ false
  pub enough : quantity_tolerance <ℤ available
  pub fill : FrontFill s.book side o (swept_quantity available o) s'.book
  pub fills_are :
      s'.fills
      ≡ s.fills ++ maker_fill event level o (swept_quantity available o) s.next_fill_id ∷ []
  pub available_is : available' ≡ max_ℤ (pos 0) (available -ℤ swept_quantity available o)

module _ (side : OrderSide) (event : MarketEvent) (level : BookLevel) where
  pub sweep_step_cases :
      (available : Double) (s : Sweep)
      → IsValid s.book
      → (sweep_step side event level available s ≡ none)
        ⊎ ((s' : Sweep) × (available' : Double) × (sweep_step side event level available s
              ≡ some (s', available'))
            × SweepRound side event level available s s' available')
  unfolding sweep_step
  sweep_step_cases available s v = elim (Bool-cases (ltb_ℤ quantity_tolerance available)) [
    | inr little ↦ inl (rw little)
    | inl enough ↦ elim (Option-cases (front_order (levels_of side s.book))) [
      | inl empty ↦ inl (rw (enough, best_order-front side s.book, empty))
      | inr (o, front) ↦ elim (Bool-cases (out_of_reach side o.request.price level.price)) [
        | inl far ↦ inl (rw (enough, best_order-front side s.book, front, far))
        | inr near ↦
            let left = (front_order-FrontFound s.book side o v front).belongs.left in
            let lo : quantity_tolerance <ℤ swept_quantity available o = ground arith in
            let hi : swept_quantity available o ≤ℤ o.remaining_quantity = ground arith in
            let (b', done, fill) =
              apply_fill-FrontFill s.book side o (swept_quantity available o) v front lo hi in
            inr (
              after available s b' o,
              max_ℤ (pos 0) (available -ℤ swept_quantity available o),
              rw (enough, best_order-front side s.book, front, near, done),
              record {
                o = o;
                front = front;
                within = near;
                enough = ground arith;
                fill = fill;
                fills_are = refl;
                available_is = refl;
              },
            )
      ]
    ]
  ]
    where
      after : Double → Sweep → OrderBook → RestingOrder → Sweep
      after available s b' o = record {
        book = b';
        orders = apply_fill_to_order s.orders o.order_id (swept_quantity available o);
        fills =
            s.fills ++ maker_fill event level o (swept_quantity available o) s.next_fill_id ∷ [];
        touched_orders = s.touched_orders ++ o.order_id ∷ [];
        next_fill_id = inc_u64 s.next_fill_id;
      }

  sweep_step-used_up :
      (available : Double) (s : Sweep)
      → leb_ℤ available quantity_tolerance ≡ true
      → sweep_step side event level available s ≡ none
  unfolding sweep_step
  sweep_step-used_up available s h =
      let off : ltb_ℤ quantity_tolerance available ≡ false = ground arith in rw off

  sweep_level-stopped :
      (fuel : ℕ) (available : Double) (s : Sweep)
      → sweep_step side event level available s ≡ none
      → sweep_level fuel side event level available s ≡ (s, available)
  unfolding sweep_level
  sweep_level-stopped zero available s h = refl
  sweep_level-stopped (suc fuel) available s h = rw (h, sweep_level)

  sweep_level-step :
      (fuel : ℕ) (available available' : Double) (s s' : Sweep)
      → sweep_step side event level available s ≡ some (s', available')
      → sweep_level (suc fuel) side event level available s
        ≡ sweep_level fuel side event level available' s'
  unfolding sweep_level
  sweep_level-step fuel available available' s s' h = rw (h, sweep_level)

  SweepRound-used_up :
      (available available' : Double) (s s' : Sweep)
      (m : SweepRound side event level available s s' available')
      → swept_quantity available m.o <ℤ (m.o).remaining_quantity
      → leb_ℤ available' quantity_tolerance ≡ true
  SweepRound-used_up available available' s s' m h =
      let all : swept_quantity available m.o ≡ available = ground arith in
      rw (m.available_is, all) (ground (arith, -ℤ_parts available available))

  pub SweepRound-IsValid :
      (available available' : Double) (s s' : Sweep)
      → IsValid s.book
      → SweepRound side event level available s s' available'
      → IsValid s'.book
  SweepRound-IsValid available available' s s' v m =
      FrontFill-IsValid s.book side m.o (swept_quantity available m.o) s'.book v m.fill

  -- On a valid book, with more fuel than orders on the side, the loop of `process_market_event`
  -- over one level ends by one of its own tests and not for want of fuel.
  pub sweep_level_ends :
      (fuel : ℕ) (available : Double) (s : Sweep)
      → IsValid s.book
      → resting_count (levels_of side s.book) < fuel
      → sweep_step side event level
          (sweep_level fuel side event level available s).1
          (sweep_level fuel side event level available s).0
        ≡ none
  sweep_level_ends zero available s v h = absurd (omega arith)
  sweep_level_ends (suc fuel) available s v h = elim (sweep_step_cases available s v) [
    | inl e ↦ rw (sweep_level-stopped (suc fuel) available s e) e
    | inr (s', available', e, m) ↦
        rw (sweep_level-step fuel available available' s s' e)
          (elim (FrontFill-count s.book side m.o (swept_quantity available m.o) s'.book m.fill) [
            | inl fewer ↦
                sweep_level_ends fuel available' s'
                  (SweepRound-IsValid available available' s s' v m) (omega arith)
            | inr part ↦
                let stop =
                  sweep_step-used_up available' s'
                    (SweepRound-used_up available available' s s' m part) in
                rw (sweep_level-stopped fuel available' s' stop) stop
          ])
  ]

  -- What every round keeps holds when a level's loop is over.
  pub sweep_level_inv :
      (P : Sweep → Double → Type 0)
      → ((available available' : Double) (s s' : Sweep)
          → IsValid s.book
          → SweepRound side event level available s s' available'
          → P s available
          → P s' available')
      → (fuel : ℕ) (available : Double) (s : Sweep) → IsValid s.book
      → P s available
      → IsValid (sweep_level fuel side event level available s).0.book
        × P
            (sweep_level fuel side event level available s).0
            (sweep_level fuel side event level available s).1
  unfolding sweep_level
  sweep_level_inv P keep zero available s v h = (v, h)
  sweep_level_inv P keep (suc fuel) available s v h = elim (sweep_step_cases available s v) [
    | inl e ↦ rw (sweep_level-stopped (suc fuel) available s e) (v, h)
    | inr (s', available', e, m) ↦ rw (sweep_level-step fuel available available' s s' e) (
        sweep_level_inv P keep fuel available' s' (SweepRound-IsValid available available' s s' v m)
          (keep available available' s s' v m h))
  ]
