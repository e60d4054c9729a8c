-- ===== src/OrderBook/Added.antt =====
-- The outcome of `add_order` (src/execution/order_book.cpp).
use mathlib.Core.Path.{ap₂}
use wall.Core.{Double, OrderRequest, OrderSide, buy, sell}
use wall.OrderBook.{
  OrderBook, add_order, is_request_compatible, levels_of, rest, resting_order, with_levels,
}
use wall.OrderBook.Adding.{Compatible, is_request_compatible-Compatible, rest-Sides}
use wall.OrderBook.Crossings.{
  crossings, crossings-push_ask, crossings-push_bid, crossings_in, reaches,
}
use wall.OrderBook.Operations.{Sides}
use wall.OrderBook.PriceLevels.{Levels, RestingOrder, push_order}
use wall.OrderBook.Validity.{other}
use wall.OrderBook.Weigh.{weigh}
use wall.Prelude.{
  Bool, Bool-cases, Option, String, ap, false, if◌then◌else◌, inl, inr, refl, some, true, ◌∙◌, ◌≡◌,
  ◌⊎◌,
}

-- `add_order` refuses and changes nothing, or rests the order.
pub add_order_cases :
    (b : OrderBook) (r : OrderRequest) (k c : String) (q : Double)
    → ((is_request_compatible b r k c q ≡ false) × (add_order b r k c q ≡ (b, false)))
      ⊎ ((price : Double) × Compatible b r k q price
          × (add_order b r k c q ≡ (rest b r k c q (some price), true)))
unfolding add_order
add_order_cases b r k c q = elim (Bool-cases (is_request_compatible b r k c q)) [
  | inr misfit ↦ inl (misfit, rw misfit)
  | inl fits ↦
      let (price, ok) = is_request_compatible-Compatible b r k c q fits in
      inr (
        price,
        ok,
        (ap (λ (t : Bool). if t then (rest b r k c q r.price, true) else (b, false)) fits
            ∙ ap (λ (p : Option Double). (rest b r k c q p, true)) ok.price_is),
      )
]

rest-instrument :
    (b : OrderBook) (r : OrderRequest) (k c : String) (q p : Double)
    → (rest b r k c q (some p)).instrument ≡ b.instrument
unfolding rest
rest-instrument b r k c q p =
    both r.side
      (push_order r.side p (resting_order r k c q b.next_sequence_number) (levels_of r.side b))
  where
    both : (s : OrderSide) (l : Levels) → (with_levels s l b).instrument ≡ b.instrument
    both buy l = refl
    both sell l = refl

-- `add_order` keeps the book's instrument.
pub add_order-instrument :
    (b : OrderBook) (r : OrderRequest) (k c : String) (q : Double)
    → (add_order b r k c q).0.instrument ≡ b.instrument
add_order-instrument b r k c q = elim (add_order_cases b r k c q) [
  | inl (m, e) ↦ ap (λ (x : OrderBook × Bool). x.0.instrument) e
  | inr (p, ok, e) ↦ ap (λ (x : OrderBook × Bool). x.0.instrument) e ∙ rest-instrument b r k c q p
]

pushed-crossings :
    (s : OrderSide) (b b' : OrderBook) (p : Double) (o : RestingOrder)
    → Sides s (push_order s p o (levels_of s b)) b b'
    → weigh (reaches (other s) p) (levels_of (other s) b) ≡ 0
    → crossings b' ≡ crossings b
unfolding crossings
pushed-crossings buy b b' p o d h =
    ap₂ crossings_in d.here d.there ∙ crossings-push_bid p o b.bid_levels b.ask_levels h
pushed-crossings sell b b' p o d h =
    ap₂ crossings_in d.there d.here ∙ crossings-push_ask p o b.bid_levels b.ask_levels h

-- An order that reaches no order of the other side adds no crossing.
pub add_order-crossings :
    (b : OrderBook) (r : OrderRequest) (k c : String) (q : Double)
    → ((p : Double)
        → r.price ≡ some p
        → weigh (reaches (other r.side) p) (levels_of (other r.side) b) ≡ 0)
    → crossings (add_order b r k c q).0 ≡ crossings b
add_order-crossings b r k c q h = elim (add_order_cases b r k c q) [
  | inl (m, e) ↦ ap (λ (x : OrderBook × Bool). crossings x.0) e
  | inr (p, ok, e) ↦
      ap (λ (x : OrderBook × Bool). crossings x.0) e
      ∙ pushed-crossings r.side b (rest b r k c q (some p)) p
          (resting_order r k c q b.next_sequence_number) (rest-Sides b r k c q p) (h p ok.price_is)
]
