-- ===== src/MatchingEngine/Matches.antt =====
-- The loop of `submit` (src/execution/matching_engine.cpp): what one round does, and that the fuel
-- is enough for the loop to end by its own tests.
use wall.Core.{Double, OrderRequest, OrderSide, buy, quantity_tolerance, sell}
use wall.MatchingEngine.{apply_fill_to_order, best_order, crosses, resting_count}
use wall.MatchingEngine.Rounds.{
  FrontFill, FrontFill-IsValid, apply_fill-FrontFill, takes_all, takes_part,
}
use wall.MatchingEngine.Submit.{Matching, match_loop, match_step, opposite, taker_fill}
use wall.OrderBook.{OrderBook, apply_fill, best_ask_order, best_bid_order, front_order, levels_of}
use wall.OrderBook.Front.{front_order-FrontFound}
use wall.OrderBook.Operations.{without-Sides}
use wall.OrderBook.PriceLevels.{Levels, RestingOrder}
use wall.OrderBook.Validity.{IsValid, one_each}
use wall.OrderBook.Weigh.{weigh, weigh_queue}
use wall.Prelude.{
  Bool-cases, List, Option-cases, String, [], ap, arith, false, inc_u64, inl, inr, length, none,
  refl, some, suc, true, zero, ℕ, ◌++◌, ◌<◌, ◌∷◌, ◌≡◌, ◌⊎◌,
}
use wall.Prelude.Int.{leb_ℤ, ltb_ℤ, max_ℤ, min_ℤ, pos, ◌-ℤ◌, ◌<ℤ◌, ◌≤ℤ◌, -ℤ_parts}

pub best_order-front :
    (s : OrderSide) (b : OrderBook) → best_order s b ≡ front_order (levels_of s b)
unfolding best_bid_order best_ask_order
best_order-front buy b = refl
best_order-front sell b = refl

abbrev pub executed_in : Matching → RestingOrder → Double
executed_in s o = min_ℤ s.remaining_quantity o.remaining_quantity

-- A round that matched.
pub record MatchRound (r : OrderRequest) (order_id : String) (s s' : Matching) : Type 0 where
  pub o : RestingOrder
  pub enough : quantity_tolerance <ℤ s.remaining_quantity
  pub front : front_order (levels_of (opposite r.side) s.book) ≡ some o
  pub crossing : crosses r o ≡ true
  pub done : apply_fill s.book o.order_id (executed_in s o) ≡ (s'.book, true)
  pub fill : FrontFill s.book (opposite r.side) o (executed_in s o) s'.book
  pub fills_are :
      s'.fills ≡ s.fills ++ taker_fill r order_id o (executed_in s o) s.next_fill_id ∷ []
  pub remaining_is : s'.remaining_quantity ≡ max_ℤ (pos 0) (s.remaining_quantity -ℤ executed_in s o)
  pub orders_are : s'.orders ≡ apply_fill_to_order s.orders o.order_id (executed_in s o)
  pub next_is : s'.next_fill_id ≡ inc_u64 s.next_fill_id

-- Why the loop ended: nothing is left to match, or nothing crosses.
pub data MatchEnd (r : OrderRequest) (s : Matching) : Type 0 where
  used_up : leb_ℤ s.remaining_quantity quantity_tolerance ≡ true → MatchEnd r s
  no_order : front_order (levels_of (opposite r.side) s.book) ≡ none → MatchEnd r s
  no_cross :
      (o : RestingOrder)
      → front_order (levels_of (opposite r.side) s.book) ≡ some o
      → crosses r o ≡ false
      → MatchEnd r s

front-left :
    (b : OrderBook) (side : OrderSide) (o : RestingOrder)
    → IsValid b
    → front_order (levels_of side b) ≡ some o
    → quantity_tolerance <ℤ o.remaining_quantity
front-left b side o v h = ((front_order-FrontFound b side o v h).belongs).left

pub match_step_cases :
    (r : OrderRequest) (order_id : String) (s : Matching)
    → IsValid s.book
    → ((match_step r order_id s ≡ none) × MatchEnd r s)
      ⊎ ((s' : Matching) × (match_step r order_id s ≡ some s') × MatchRound r order_id s s')
unfolding match_step
match_step_cases r order_id s v =
    elim (Bool-cases (ltb_ℤ quantity_tolerance s.remaining_quantity)) [
      | inr little ↦ inl (rw little, used_up (ground arith))
      | inl enough ↦ elim (Option-cases (front_order (levels_of (opposite r.side) s.book))) [
        | inl empty ↦
            inl (rw (enough, best_order-front (opposite r.side) s.book, empty), no_order empty)
        | inr (o, front) ↦ elim (Bool-cases (crosses r o)) [
          | inr apart ↦ inl (
            rw (enough, best_order-front (opposite r.side) s.book, front, apart),
            no_cross o front apart,
          )
          | inl crossing ↦
              let left = front-left s.book (opposite r.side) o v front in
              let lo : quantity_tolerance <ℤ executed_in s o = ground arith in
              let hi : executed_in s o ≤ℤ o.remaining_quantity = ground arith in
              let (b', done, fill) =
                apply_fill-FrontFill s.book (opposite r.side) o (executed_in s o) v front lo hi in
              inr (
                after b' o,
                rw (enough, best_order-front (opposite r.side) s.book, front, crossing, done),
                record {
                  o = o;
                  enough = ground arith;
                  front = front;
                  crossing = crossing;
                  done = done;
                  fill = fill;
                  fills_are = refl;
                  remaining_is = refl;
                  orders_are = refl;
                  next_is = refl;
                },
              )
        ]
      ]
    ]
  where
    after : OrderBook → RestingOrder → Matching
    after b' o = record {
      book = b';
      orders = apply_fill_to_order s.orders o.order_id (executed_in s o);
      fills = s.fills ++ taker_fill r order_id o (executed_in s o) s.next_fill_id ∷ [];
      remaining_quantity = max_ℤ (pos 0) (s.remaining_quantity -ℤ executed_in s o);
      next_fill_id = inc_u64 s.next_fill_id;
    }

length-weigh : (p : Double) (q : List RestingOrder) → length q ≡ weigh_queue one_each p q
unfolding weigh_queue
length-weigh p [] = refl
length-weigh p (o ∷ q) = omega (arith, length-weigh p q)

pub resting_count-weigh : (ls : Levels) → resting_count ls ≡ weigh one_each ls
unfolding resting_count weigh
resting_count-weigh [] = refl
resting_count-weigh ((p, q) ∷ ls) = omega (arith, resting_count-weigh ls, length-weigh p q)

-- A fill takes an order off its side, or leaves it and executes less than it had.
pub FrontFill-count :
    (b : OrderBook) (side : OrderSide) (o : RestingOrder) (executed : Double) (b' : OrderBook)
    → FrontFill b side o executed b'
    → (resting_count (levels_of side b') < resting_count (levels_of side b))
      ⊎ (executed <ℤ o.remaining_quantity)
FrontFill-count b side o executed b' (takes_all price l i a e w) = inl (
    omega (
      arith,
      resting_count-weigh (levels_of side b'),
      resting_count-weigh (levels_of side b),
      ap (λ x. weigh one_each (levels_of side x)) e,
      ap (weigh one_each) (without-Sides b o.order_id side l).here,
      w.weight one_each,
    ))
FrontFill-count b side o executed b' (takes_part price l i a e w) =
    inr (ground (arith, -ℤ_parts o.remaining_quantity executed))

module _ (r : OrderRequest) (order_id : String) where
  pub match_step-used_up :
      (s : Matching)
      → leb_ℤ s.remaining_quantity quantity_tolerance ≡ true
      → match_step r order_id s ≡ none
  unfolding match_step
  match_step-used_up s h =
      let off : ltb_ℤ quantity_tolerance s.remaining_quantity ≡ false = ground arith in rw off

  pub match_loop-stopped :
      (fuel : ℕ) (s : Matching) → match_step r order_id s ≡ none → match_loop fuel r order_id s ≡ s
  unfolding match_loop
  match_loop-stopped zero s h = refl
  match_loop-stopped (suc fuel) s h = rw (h, match_loop)

  pub match_loop-step :
      (fuel : ℕ) (s s' : Matching)
      → match_step r order_id s ≡ some s'
      → match_loop (suc fuel) r order_id s ≡ match_loop fuel r order_id s'
  unfolding match_loop
  match_loop-step fuel s s' h = rw (h, match_loop)

  -- If a round leaves the front order in place, it uses the incoming quantity up.
  pub MatchRound-used_up :
      (s s' : Matching) (m : MatchRound r order_id s s')
      → executed_in s m.o <ℤ (m.o).remaining_quantity
      → leb_ℤ s'.remaining_quantity quantity_tolerance ≡ true
  MatchRound-used_up s s' m h =
      let all : executed_in s m.o ≡ s.remaining_quantity = ground arith in
      rw (m.remaining_is, all) (ground (arith, -ℤ_parts s.remaining_quantity s.remaining_quantity))

  -- What every round keeps holds when the loop is over.
  pub match_loop_inv :
      (P : Matching → Type 0)
      → ((s s' : Matching) → IsValid s.book → MatchRound r order_id s s' → P s → P s')
      → (fuel : ℕ) (s : Matching) → IsValid s.book
      → P s
      → IsValid (match_loop fuel r order_id s).book × P (match_loop fuel r order_id s)
  unfolding match_loop
  match_loop_inv P keep zero s v h = (v, h)
  match_loop_inv P keep (suc fuel) s v h = elim (match_step_cases r order_id s v) [
    | inl (e, over) ↦ rw (match_loop-stopped (suc fuel) s e) (v, h)
    | inr (s', e, m) ↦ rw (match_loop-step fuel s s' e) (
        match_loop_inv P keep fuel s'
          (FrontFill-IsValid s.book (opposite r.side) m.o (executed_in s m.o) s'.book v m.fill)
          (keep s s' v m h))
  ]

  -- On a valid book, with more fuel than orders on the side that a request meets, the matching
  -- loop of `submit` ends by one of its own tests and not for want of fuel.
  pub match_loop_ends :
      (fuel : ℕ) (s : Matching)
      → IsValid s.book
      → resting_count (levels_of (opposite r.side) s.book) < fuel
      → match_step r order_id (match_loop fuel r order_id s) ≡ none
  match_loop_ends zero s v h = absurd (omega arith)
  match_loop_ends (suc fuel) s v h = elim (match_step_cases r order_id s v) [
    | inl (e, over) ↦ rw (match_loop-stopped (suc fuel) s e) e
    | inr (s', e, m) ↦
        rw (match_loop-step fuel s s' e)
          (elim (FrontFill-count s.book (opposite r.side) m.o (executed_in s m.o) s'.book m.fill) [
            | inl fewer ↦
                match_loop_ends fuel s'
                  (FrontFill-IsValid s.book (opposite r.side) m.o (executed_in s m.o) s'.book v
                    m.fill)
                  (omega arith)
            | inr part ↦
                let stop = match_step-used_up s' (MatchRound-used_up s s' m part) in
                rw (match_loop-stopped fuel s' stop) stop
          ])
  ]
