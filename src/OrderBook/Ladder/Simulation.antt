-- ===== src/OrderBook/Ladder/Simulation.antt =====
-- Whatever calls src/execution/order_book.cpp gets, it cannot be told from the abstract book.
use mathlib.Core.Option
use mathlib.Core.Path.{ap₂}
use wall.Core.{Double, Instrument, OrderRequest, OrderSide, buy, sell}
use wall.OrderBook.{
  OrderBook, add_order, apply_fill, best_ask_order, best_bid_order, cancel_order, find_order,
  front_order, is_request_compatible, levels_of, new_book, rest, resting_order,
}
use wall.OrderBook.Adding.{is_request_compatible-Compatible}
use wall.OrderBook.Ladder.{
  AbstractBook, Ladder, abstract_call, adds_at, admitted, empty_book, held, ladder, view,
}
use wall.OrderBook.Ladder.Held.{HeldCase, absent, held_cases, present}
use wall.OrderBook.Ladder.Placing.{ladder-push_order}
use wall.OrderBook.Ladder.Refines.{
  admitted-compatible, apply_fill_refines, cancel_order_refines, seen,
}
use wall.OrderBook.PriceLevels.{Levels, RestingOrder}
use wall.OrderBook.Ranked.{IsRanked}
use wall.OrderBook.Safety.{
  Call, add_order-IsValid, adds, apply_fill-IsValid, call, cancel_order-IsValid, cancels, fills,
}
use wall.OrderBook.Stocked.{IsStocked}
use wall.OrderBook.Validity.{IsValid, new_book-IsValid}
use wall.Prelude.{
  Bool, Bool-cases, List, Option, String, [], ap, foldl, inc_u64, inl, inr, none, refl, some, subst,
  sym, true, ◌∙◌, ◌∷◌, ◌≡◌,
}

view-rest :
    (b : OrderBook) (r : OrderRequest) (k c : String) (q p : Double)
    → IsValid b
    → (view (rest b r k c q (some p)), true) ≡ adds_at (view b) r k c q (some p)
unfolding rest view
view-rest b r k c q p v = at_side r.side (v.ranked r.side) (v.stocked r.side)
  where
    at_side :
        (s : OrderSide)
        → IsRanked s (levels_of s b)
        → IsStocked s (levels_of s b)
        → (view (rest b (record r { side = s }) k c q (some p)), true)
          ≡ adds_at (view b) (record r { side = s }) k c q (some p)
    at_side buy ra st =
        ap
          (λ l. (
            record (view b) { bids = l; next_sequence_number = inc_u64 b.next_sequence_number },
            true,
          ))
          (ladder-push_order buy p
            (resting_order (record r { side = buy }) k c q b.next_sequence_number) b.bid_levels ra
            st)
    at_side sell ra st =
        ap
          (λ l. (
            record (view b) { asks = l; next_sequence_number = inc_u64 b.next_sequence_number },
            true,
          ))
          (ladder-push_order sell p
            (resting_order (record r { side = sell }) k c q b.next_sequence_number) b.ask_levels ra
            st)

pub add_order_refines :
    (b : OrderBook) (r : OrderRequest) (k c : String) (q : Double)
    → IsValid b
    → seen (add_order b r k c q) ≡ adds_at (view b) r k c q (admitted (view b) r k c q)
unfolding add_order
add_order_refines b r k c q v = elim (Bool-cases (is_request_compatible b r k c q)) [
  | inr misfit ↦ rw (admitted-compatible b r k c q v, misfit) refl
  | inl fits ↦
      let (p, ok) = is_request_compatible-Compatible b r k c q fits in
      rw (admitted-compatible b r k c q v, fits)
        (ap (λ x. (view (rest b r k c q x), true)) ok.price_is
          ∙ view-rest b r k c q p v
          ∙ ap (adds_at (view b) r k c q) (sym ok.price_is))
]

-- A call on a book with its answer.
unfoldable pub answered_call : OrderBook → Call → OrderBook × Bool
answered_call b (adds r k c q) = add_order b r k c q
answered_call b (cancels k) = cancel_order b k
answered_call b (fills k x) = apply_fill b k x

pub call_refines :
    (b : OrderBook) (c : Call) → IsValid b → seen (answered_call b c) ≡ abstract_call (view b) c
unfolding answered_call abstract_call
call_refines b (adds r k c q) v = add_order_refines b r k c q v
call_refines b (cancels k) v = cancel_order_refines b k v
call_refines b (fills k x) v = apply_fill_refines b k v x

call-answered : (b : OrderBook) (c : Call) → call b c ≡ (answered_call b c).0
unfolding call answered_call
call-answered b (adds r k c q) = refl
call-answered b (cancels k) = refl
call-answered b (fills k x) = refl

-- The answers to a sequence of calls, in order.
unfoldable pub answers : OrderBook → List Call → List Bool
answers b [] = []
answers b (c ∷ cs) = (answered_call b c).1 ∷ answers (call b c) cs

unfoldable pub abstract_answers : AbstractBook → List Call → List Bool
abstract_answers a [] = []
abstract_answers a (c ∷ cs) = (abstract_call a c).1 ∷ abstract_answers (abstract_call a c).0 cs

abbrev pub first : Ladder → Option RestingOrder
first [] = none
first ((p, o) ∷ l) = some o

-- What the book shows is what the abstract book shows: the lists, the best orders, and what is found.
pub record Shows (b : OrderBook) (a : AbstractBook) : Type 0 where
  pub view_is : view b ≡ a
  pub best_bid_is : best_bid_order b ≡ first a.bids
  pub best_ask_is : best_ask_order b ≡ first a.asks
  pub found_is : (k : String) → find_order b k ≡ Option.map (λ h. h.1) (held k a)

front_order-first_of :
    (s : OrderSide) (ls : Levels) → IsStocked s ls → front_order ls ≡ first (ladder ls)
unfolding ladder
front_order-first_of s [] st = refl
front_order-first_of s ((p, []) ∷ ls) st = absurd (st.0 refl)
front_order-first_of s ((p, o ∷ q) ∷ ls) st = refl

view-Shows : (b : OrderBook) → IsValid b → Shows b (view b)
unfolding best_bid_order best_ask_order find_order view
view-Shows b v = record {
  view_is = refl;
  best_bid_is = front_order-first_of buy b.bid_levels (v.stocked buy);
  best_ask_is = front_order-first_of sell b.ask_levels (v.stocked sell);
  found_is = λ k. found k (held_cases b k v);
}
  where
    found : (k : String) → HeldCase b k → find_order b k ≡ Option.map (λ h. h.1) (held k (view b))
    found k (absent i h) = rw (i, h) refl
    found k (present at o i h once f) = rw (i, h) f

call-IsValid : (b : OrderBook) (c : Call) → IsValid b → IsValid (call b c)
unfolding call
call-IsValid b (adds r k c q) v = add_order-IsValid b r k c q v
call-IsValid b (cancels k) v = cancel_order-IsValid b k v
call-IsValid b (fills k x) v = apply_fill-IsValid b k x v

calls_refine_from :
    (b : OrderBook) (cs : List Call)
    → IsValid b
    → Shows (foldl call b cs) (foldl (λ a c. (abstract_call a c).0) (view b) cs)
      × (answers b cs ≡ abstract_answers (view b) cs)
unfolding answers abstract_answers
calls_refine_from b [] v = (view-Shows b v, refl)
calls_refine_from b (c ∷ cs) v =
    let step = call_refines b c v in
    let state : view (call b c) ≡ (abstract_call (view b) c).0 =
      ap view (call-answered b c) ∙ ap (λ x. x.0) step in
    let (shows, told) = calls_refine_from (call b c) cs (call-IsValid b c v) in
    (
      subst (λ a. Shows (foldl call (call b c) cs) (foldl (λ a c. (abstract_call a c).0) a cs))
          state shows,
      ap₂ (◌∷◌) (ap (λ x. x.1) step) (told ∙ ap (λ a. abstract_answers a cs) state),
    )

-- The order book refines the abstract book, which keeps each side as one list in the order in which it trades,
-- a new order behind all that its price does not come before: after any calls on a new book, the
-- orders of each side in the order of the levels and of their queues, the best orders, the order that each
-- identifier finds, and the answers of the calls are those of the abstract book after the same calls.
pub calls_refine :
    (i : Instrument) (cs : List Call)
    → Shows (foldl call (new_book i) cs) (foldl (λ a c. (abstract_call a c).0) (empty_book i) cs)
      × (answers (new_book i) cs ≡ abstract_answers (empty_book i) cs)
unfolding new_book view ladder
calls_refine i cs = calls_refine_from (new_book i) cs (new_book-IsValid i)
