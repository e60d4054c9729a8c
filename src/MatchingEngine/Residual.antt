-- ===== src/MatchingEngine/Residual.antt =====
-- What the loop of `submit` (src/execution/matching_engine.cpp) leaves behind: no crossed book, and
-- fills that add up.
use wall.Core.{Double, OrderSide, buy, sell}
use wall.MatchingEngine.Rounds.{FrontFill, takes_all, takes_part}
use wall.OrderBook.{OrderBook, levels_of}
use wall.OrderBook.Crossings.{crossings, crossings-asks, reaches}
use wall.OrderBook.Operations.{with_levels-Sides, without-Sides}
use wall.OrderBook.PriceLevels.{RestingOrder}
use wall.OrderBook.Queues.{reduced_order}
use wall.OrderBook.Validity.{other}
use wall.OrderBook.Weigh.{Weight, weigh}
use wall.Prelude.{ap, arith, refl, ◌∙◌, ◌≡◌, ◌≤◌}

FrontFill-fewer :
    (b : OrderBook) (side : OrderSide) (o : RestingOrder) (x : Double) (b' : OrderBook)
    → FrontFill b side o x b'
    → (f : Weight) → ((p : Double) (a c : RestingOrder) → f p a ≡ f p c)
    → weigh f (levels_of side b') ≤ weigh f (levels_of side b)
FrontFill-fewer b side o x b' (takes_all p l i a e w) f h = omega (
  arith,
  ap (λ y. weigh f (levels_of side y)) e,
  ap (weigh f) (without-Sides b o.order_id side l).here,
  w.weight f,
)
FrontFill-fewer b side o x b' (takes_part p l i a e w) f h = omega (
  arith,
  ap (λ y. weigh f (levels_of side y)) e,
  ap (weigh f) (with_levels-Sides b side l).here,
  w.weight f,
  h p o (reduced_order o x),
)

pub FrontFill-there :
    (b : OrderBook) (side : OrderSide) (o : RestingOrder) (x : Double) (b' : OrderBook)
    → FrontFill b side o x b'
    → levels_of (other side) b' ≡ levels_of (other side) b
FrontFill-there b side o x b' (takes_all p l i a e w) =
    ap (levels_of (other side)) e ∙ (without-Sides b o.order_id side l).there
FrontFill-there b side o x b' (takes_part p l i a e w) =
    ap (levels_of (other side)) e ∙ (with_levels-Sides b side l).there

-- A fill of the best order of a side adds no crossing.
pub FrontFill-crossings :
    (b : OrderBook) (side : OrderSide) (o : RestingOrder) (x : Double) (b' : OrderBook)
    → FrontFill b side o x b'
    → crossings b' ≤ crossings b
unfolding crossings
FrontFill-crossings b buy o x b' w =
    let fewer =
      FrontFill-fewer b buy o x b' w (λ p _. weigh (reaches sell p) b.ask_levels) (λ p c d. refl) in
    rw (FrontFill-there b buy o x b' w) fewer
FrontFill-crossings b sell o x b' w =
    rw (FrontFill-there b sell o x b' w)
      (crossings-asks b.bid_levels b.ask_levels b'.ask_levels (FrontFill-fewer b sell o x b' w))

pub FrontFill-instrument :
    (b : OrderBook) (side : OrderSide) (o : RestingOrder) (x : Double) (b' : OrderBook)
    → FrontFill b side o x b'
    → b'.instrument ≡ b.instrument
FrontFill-instrument b buy o x b' (takes_all p l i a e w) = ap (λ (y : OrderBook). y.instrument) e
FrontFill-instrument b sell o x b' (takes_all p l i a e w) = ap (λ (y : OrderBook). y.instrument) e
FrontFill-instrument b buy o x b' (takes_part p l i a e w) = ap (λ (y : OrderBook). y.instrument) e
FrontFill-instrument b sell o x b' (takes_part p l i a e w) = ap (λ (y : OrderBook). y.instrument) e
