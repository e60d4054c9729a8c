-- ===== src/OrderBook/Crossings.antt =====
-- Bids and asks that could trade with one another (the book of src/execution/order_book.cpp, and
-- `crosses` of src/execution/matching_engine.cpp).
use mathlib.Core.Path.{fun_ext}
use wall.Core.{Double, OrderSide, buy, sell}
use wall.OrderBook.{OrderBook}
use wall.OrderBook.PriceLevels.{Levels, RestingOrder, before, push_order}
use wall.OrderBook.Ranked.{RankedAfter, before_trans}
use wall.OrderBook.Validity.{weigh_mono}
use wall.OrderBook.Weigh.{Weight, weigh, weigh-push_order, weigh_queue}
use wall.Prelude.{List, [], ap, arith, if◌then◌else◌, refl, true, ℕ, ◌+◌, ◌∙◌, ◌∷◌, ◌≡◌, ◌≤◌}

-- 1 for an order of side `s` that an incoming order at the price `p` would trade with.
abbrev pub reaches : OrderSide → Double → Weight
reaches s p q o = if before s p q then 0 else 1

-- The number of pairs of a resting bid and a resting ask at a price that the bid would pay.
abbrev pub crossings_in : Levels → Levels → ℕ
crossings_in bids asks = weigh (λ p _. weigh (reaches sell p) asks) bids

unfoldable pub crossings : OrderBook → ℕ
crossings b = crossings_in b.bid_levels b.ask_levels

weigh_queue_zero :
    (f : Weight) (p : Double) (q : List RestingOrder)
    → ((o : RestingOrder) → f p o ≡ 0)
    → weigh_queue f p q ≡ 0
unfolding weigh_queue
weigh_queue_zero f p [] h = refl
weigh_queue_zero f p (o ∷ q) h = omega (arith, h o, weigh_queue_zero f p q h)

weigh_queue-plus :
    (f g : Weight) (p : Double) (q : List RestingOrder)
    → weigh_queue (λ x o. f x o + g x o) p q ≡ weigh_queue f p q + weigh_queue g p q
unfolding weigh_queue
weigh_queue-plus f g p [] = refl
weigh_queue-plus f g p (o ∷ q) = omega (arith, weigh_queue-plus f g p q)

weigh-plus :
    (f g : Weight) (ls : Levels) → weigh (λ x o. f x o + g x o) ls ≡ weigh f ls + weigh g ls
unfolding weigh
weigh-plus f g [] = refl
weigh-plus f g ((p, q) ∷ ls) = omega (arith, weigh_queue-plus f g p q, weigh-plus f g ls)

-- Taking orders out of the asks, or out of the bids, adds no crossing.
pub crossings-asks :
    (bids asks asks' : Levels)
    → ((f : Weight)
        → ((x : Double) (o o' : RestingOrder) → f x o ≡ f x o')
        → weigh f asks' ≤ weigh f asks)
    → crossings_in bids asks' ≤ crossings_in bids asks
crossings-asks bids asks asks' h =
    weigh_mono (λ p _. weigh (reaches sell p) asks') (λ p _. weigh (reaches sell p) asks) bids
      (λ p o. h (reaches sell p) (λ x a b. refl))

-- A bid below every ask crosses none.
pub crossings-push_bid :
    (p : Double) (o : RestingOrder) (bids asks : Levels)
    → weigh (reaches sell p) asks ≡ 0
    → crossings_in (push_order buy p o bids) asks ≡ crossings_in bids asks
crossings-push_bid p o bids asks h =
    omega (arith, weigh-push_order (λ x _. weigh (reaches sell x) asks) buy p o bids)

-- An ask above every bid crosses none.
pub crossings-push_ask :
    (q : Double) (o : RestingOrder) (bids asks : Levels)
    → weigh (reaches buy q) bids ≡ 0
    → crossings_in bids (push_order sell q o asks) ≡ crossings_in bids asks
crossings-push_ask q o bids asks h =
    ap (λ (f : Weight). weigh f bids)
      (fun_ext (λ p. fun_ext (λ x. weigh-push_order (reaches sell p) sell q o asks)))
    ∙ weigh-plus (λ p _. weigh (reaches sell p) asks) (reaches buy q) bids
    ∙ omega (arith, h)

-- Nothing after a price that is out of reach is in reach.
pub reaches-after :
    (s : OrderSide) (p q : Double) (ls : Levels)
    → before s p q ≡ true
    → RankedAfter s q ls
    → weigh (reaches s p) ls ≡ 0
unfolding weigh
reaches-after s p q [] h r = refl
reaches-after s p q ((x, xs) ∷ ls) h r =
    let far : before s p x ≡ true = before_trans s p q x h r.0 in
    omega (arith, weigh_queue_zero (reaches s p) x xs (λ o. rw far), reaches-after s p x ls far r.1)

-- If the best order of a side is out of reach, every order of the side is.
pub reaches-front :
    (s : OrderSide) (p q : Double) (xs : List RestingOrder) (ls : Levels)
    → before s p q ≡ true
    → RankedAfter s q ls
    → weigh (reaches s p) ((q, xs) ∷ ls) ≡ 0
unfolding weigh
reaches-front s p q xs ls h r =
    omega (arith, weigh_queue_zero (reaches s p) q xs (λ o. rw h), reaches-after s p q ls h r)
