-- ===== src/MatchingEngine/Outcome.antt =====
-- The state in which the loop of `submit` (src/execution/matching_engine.cpp) ends.
use wall.Core.{Double, FillEvent, OrderRequest, OrderSide, buy, quantity_tolerance, sell}
use wall.MatchingEngine.{MatchingEngine, book_for, crosses, crosses_at}
use wall.MatchingEngine.Matches.{
  MatchEnd, MatchRound, executed_in, match_loop_ends, match_loop_inv, match_step_cases,
}
use wall.MatchingEngine.Residual.{FrontFill-crossings, FrontFill-instrument, FrontFill-there}
use wall.MatchingEngine.Submit.{
  Matching, match_fuel, match_loop, match_step, matching_start, opposite, taker_fill,
}
use wall.OrderBook.{OrderBook, levels_of}
use wall.OrderBook.Crossings.{crossings}
use wall.OrderBook.Front.{front_order-FrontFound}
use wall.OrderBook.PriceLevels.{RestingOrder}
use wall.OrderBook.Validity.{IsValid, other}
use wall.Prelude.{
  All, All-append, List, String, [], ap, arith, inl, inr, none, refl, some, subst, sym, true,
  value_or, ℕ, ◌++◌, ◌∙◌, ◌∷◌, ◌≡◌, ◌≤◌,
}
use wall.Prelude.Int.{
  eq_of_parts, int_laws, max_ℤ, min_ℤ, neg_part, pos, pos_part, ◌+ℤ◌, ◌-ℤ◌, ◌<ℤ◌, ◌≤ℤ◌, -ℤ_parts,
}

-- The quantity of all the fills together.
unfoldable pub total_quantity : List FillEvent → Double
total_quantity [] = pos 0
total_quantity (f ∷ fs) = f.quantity +ℤ total_quantity fs

pub total_quantity-snoc :
    (fs : List FillEvent) (f : FillEvent)
    → total_quantity (fs ++ f ∷ []) ≡ total_quantity fs +ℤ f.quantity
unfolding total_quantity
total_quantity-snoc [] f = omega int_laws
total_quantity-snoc (x ∷ fs) f = rw (total_quantity-snoc fs f) (omega int_laws)

-- The fill belongs to the request, is larger than the tolerance, and is at a price that the request
-- accepts: at most a buyer's limit, at least a seller's.
pub record FillFits (r : OrderRequest) (order_id : String) (f : FillEvent) : Type 0 where
  pub order_is : f.order_id ≡ order_id
  pub side_is : f.side ≡ r.side
  pub instrument_is : f.instrument ≡ r.instrument
  pub price_fits : crosses_at r.side r.price (some f.price) ≡ true
  pub more_than_tolerance : quantity_tolerance <ℤ f.quantity

-- What every round keeps.
pub record Running (r : OrderRequest) (order_id : String) (b : OrderBook) (s : Matching)
    : Type 0 where
  pub conserved : total_quantity s.fills +ℤ s.remaining_quantity ≡ r.quantity
  pub fit : All (FillFits r order_id) s.fills
  pub crossings_le : crossings s.book ≤ crossings b
  pub own_side : levels_of r.side s.book ≡ levels_of r.side b
  pub left_le : s.remaining_quantity ≤ℤ r.quantity
  pub instrument_is : s.book.instrument ≡ b.instrument
  pub left_nonneg : pos 0 ≤ℤ r.quantity → pos 0 ≤ℤ s.remaining_quantity

pub left_of : (a x : Double) → x ≤ℤ a → max_ℤ (pos 0) (a -ℤ x) ≡ a -ℤ x
left_of a x h = ground (arith, -ℤ_parts a x, eq_of_parts (pos 0) (a -ℤ x))

other-opposite : (s : OrderSide) → other (opposite s) ≡ s
other-opposite buy = refl
other-opposite sell = refl

taker_fill-fits :
    (r : OrderRequest) (k : String) (o : RestingOrder) (p x : Double) (n : ℕ)
    → o.request.price ≡ some p
    → crosses r o ≡ true
    → quantity_tolerance <ℤ x
    → FillFits r k (taker_fill r k o x n)
taker_fill-fits r k o p x n e c h = record {
  order_is = refl;
  side_is = refl;
  instrument_is = refl;
  price_fits =
      subst (λ y. crosses_at r.side r.price (some (value_or y (pos 0))) ≡ true) (sym e)
        (subst (λ y. crosses_at r.side r.price y ≡ true) e c);
  more_than_tolerance = h;
}

Running-round :
    (r : OrderRequest) (k : String) (b : OrderBook) (s s' : Matching)
    → IsValid s.book
    → MatchRound r k s s'
    → Running r k b s
    → Running r k b s'
Running-round r k b s s' v m h =
    let x : Double = executed_in s m.o in
    let ff = front_order-FrontFound s.book (opposite r.side) m.o v m.front in
    let le : x ≤ℤ s.remaining_quantity = ground arith in
    let more : quantity_tolerance <ℤ x =
      more_of s.remaining_quantity (m.o).remaining_quantity m.enough ff.belongs.left in
    let left : s'.remaining_quantity ≡ s.remaining_quantity -ℤ x =
      m.remaining_is ∙ left_of s.remaining_quantity x le in
    record {
      conserved =
          rw (m.fills_are, total_quantity-snoc, left)
            (omega (int_laws, ap pos_part h.conserved, ap neg_part h.conserved));
      fit = subst (All (FillFits r k)) (sym m.fills_are) (
          All-append (FillFits r k) s.fills _ h.fit (
            taker_fill-fits r k m.o ff.price x s.next_fill_id ff.belongs.price_is m.crossing more,
            tt,
          ));
      crossings_le = omega (
        arith,
        h.crossings_le,
        FrontFill-crossings s.book (opposite r.side) m.o x s'.book m.fill,
      );
      own_side =
          subst (λ y. levels_of y s'.book ≡ levels_of y s.book) (other-opposite r.side)
            (FrontFill-there s.book (opposite r.side) m.o x s'.book m.fill)
          ∙ h.own_side;
      left_le = rw left (omega (arith, h.left_le, -ℤ_parts s.remaining_quantity x, more));
      instrument_is =
          FrontFill-instrument s.book (opposite r.side) m.o x s'.book m.fill ∙ h.instrument_is;
      left_nonneg = λ _. rw left (omega (arith, -ℤ_parts s.remaining_quantity x));
    }
  where
    more_of :
        (a c : Double)
        → quantity_tolerance <ℤ a
        → quantity_tolerance <ℤ c
        → quantity_tolerance <ℤ min_ℤ a c
    more_of a c h g = ground arith

MatchEnd-of_none :
    (r : OrderRequest) (k : String) (s : Matching)
    → IsValid s.book
    → match_step r k s ≡ none
    → MatchEnd r s
MatchEnd-of_none r k s v h = elim (match_step_cases r k s v) [
  | inl (e, why) ↦ why
  | inr (s', e, round) ↦ absurd (cc)
]

-- The loop of `submit` on a valid book ends by its own tests, with what its rounds keep.
pub record Ended (r : OrderRequest) (k : String) (b : OrderBook) (s : Matching) : Type 0 where
  pub valid : IsValid s.book
  pub over : match_step r k s ≡ none
  pub reason : MatchEnd r s
  pub running : Running r k b s

pub match_loop-Ended :
    (m : MatchingEngine) (r : OrderRequest) (k : String)
    → IsValid (book_for m.books r.instrument)
    → let b = book_for m.books r.instrument in
      Ended r k b (match_loop (match_fuel r b) r k (matching_start m r k))
unfolding total_quantity
match_loop-Ended m r k v =
    let b = book_for m.books r.instrument in
    let start : Running r k b (matching_start m r k) = record {
      conserved = omega (int_laws);
      fit = tt;
      crossings_le = omega arith;
      own_side = refl;
      left_le = omega arith;
      instrument_is = refl;
      left_nonneg = λ h. h;
    } in
    let (valid, running) =
      match_loop_inv r k (Running r k b) (λ s s'. Running-round r k b s s') (match_fuel r b)
        (matching_start m r k) v start in
    let over = match_loop_ends r k (match_fuel r b) (matching_start m r k) v (omega arith) in
    record {
      valid = valid;
      over = over;
      reason =
          MatchEnd-of_none r k (match_loop (match_fuel r b) r k (matching_start m r k)) valid over;
      running = running;
    }
