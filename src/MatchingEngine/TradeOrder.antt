-- ===== src/MatchingEngine/TradeOrder.antt =====
-- Price and time priority of `submit` (src/execution/matching_engine.cpp), on the abstract view of
-- the book.
use wall.Core.{
  Double, ExecutionResult, FillEvent, Instrument, OrderRequest, OrderSide, OrderType, buy, limit,
  market, quantity_tolerance, sell,
}
use wall.MatchingEngine.{MatchingEngine, book_for, order_id_of}
use wall.MatchingEngine.Books.{HasValidBooks, book_for-IsValid}
use wall.MatchingEngine.Guarantees.{fills_after}
use wall.MatchingEngine.Outcome.{Ended}
use wall.MatchingEngine.Priority.{Taken, match_loop-Taken, nothing}
use wall.MatchingEngine.Submit.{match_fuel, matching_start, opposite, registered, submit}
use wall.MatchingEngine.SubmitLaws.{
  SubmitCase, accepted, book, book_after, books_after, client_order_id, last, last-Ended, order_id,
  rested-done, rested-more, submit-SubmitCase, total, turned_away,
}
use wall.OrderBook.{OrderBook, new_book, resting_order}
use wall.OrderBook.Ladder.{
  AbstractBook, Ladder, adds_at, admitted, ladder, limit_price, place, side_of, view,
}
use wall.OrderBook.Ladder.Refines.{side_of-view}
use wall.OrderBook.Ladder.Simulation.{add_order_refines}
use wall.OrderBook.PriceLevels.{RestingOrder}
use wall.Prelude.{
  Bool, Bool-cases, List, Option, String, ap, arith, inl, inr, none, refl, some, subst, sym, true,
  value_or, ◌∙◌, ◌≡◌, ◌⊎◌,
}
use wall.Prelude.Dict.{lookup-insert_self}
use wall.Prelude.Int.{ltb_ℤ}

admitted-price :
    (a : AbstractBook) (r : OrderRequest) (k c : String) (q p : Double)
    → admitted a r k c q ≡ some p
    → r.price ≡ some p
unfolding admitted
admitted-price a r k c q p h = by_case r.order_type r.price (ground arith)
  where
    by_case : (t : OrderType) (x : Option Double) → limit_price t x ≡ some p → x ≡ some p
    by_case limit none g = cc
    by_case limit (some y) g = ground arith
    by_case market x g = cc

-- A side as it was, or with one new order behind all that its price does not come before.
abbrev pub KeptOrPlaced : OrderRequest → String → Ladder → Ladder → Type 0
KeptOrPlaced r k l l' =
    (l' ≡ l)
    ⊎ ((p : Double) × (o : RestingOrder) × (r.price ≡ some p)
        × (o.order_id ≡ k)
        × (l' ≡ place r.side p o l))

-- The other side of a new order is left alone by it.
side_of-adds_at :
    (a : AbstractBook) (r : OrderRequest) (k c : String) (q : Double) (p : Option Double)
    → ((x : Double) → p ≡ some x → r.price ≡ some x)
    → (side_of (opposite r.side) (adds_at a r k c q p).0 ≡ side_of (opposite r.side) a)
      × KeptOrPlaced r k (side_of r.side a) (side_of r.side (adds_at a r k c q p).0)
side_of-adds_at a r k c q none h = (refl, inl refl)
side_of-adds_at a r k c q (some p) h = at_side r.side
  where
    at_side :
        (s : OrderSide)
        → (side_of (opposite s) (adds_at a (record r { side = s }) k c q (some p)).0
            ≡ side_of (opposite s) a)
          × KeptOrPlaced
              (record r { side = s })
              k
              (side_of s a)
              (side_of s (adds_at a (record r { side = s }) k c q (some p)).0)
    at_side buy = (
      refl,
      inr (
        p,
        resting_order (record r { side = buy }) k c q a.next_sequence_number,
        h p refl,
        refl,
        refl,
      ),
    )
    at_side sell = (
      refl,
      inr (
        p,
        resting_order (record r { side = sell }) k c q a.next_sequence_number,
        h p refl,
        refl,
        refl,
      ),
    )

-- The abstract view of the book of an instrument.
abbrev pub trading_side : MatchingEngine → Instrument → OrderSide → Ladder
trading_side m i s = side_of s (view (book_for m.books i))

module _ (m : MatchingEngine) (r : OrderRequest) (v : HasValidBooks m) where
  ended : Ended r (order_id m r) (book m r) (last m r)
  ended = last-Ended m r v

  own_kept : side_of r.side (view (last m r).book) ≡ side_of r.side (view (book m r))
  own_kept =
      side_of-view r.side (last m r).book
      ∙ ap ladder ended.running.own_side
      ∙ sym (side_of-view r.side (book m r))

  book_after-sides :
      (side_of (opposite r.side) (view (book_after m r))
        ≡ side_of (opposite r.side) (view (last m r).book))
      × KeptOrPlaced r
          (order_id m r)
          (side_of r.side (view (book m r)))
          (side_of r.side (view (book_after m r)))
  book_after-sides = elim (Bool-cases (ltb_ℤ quantity_tolerance (last m r).remaining_quantity)) [
    | inr little ↦
        let e =
          ap (λ (x : OrderBook × Bool). x.0)
            (rested-done r (order_id m r) (client_order_id m r) (total m r) (last m r) little) in
        (
          ap (λ x. side_of (opposite r.side) (view x)) e,
          inl (ap (λ x. side_of r.side (view x)) e ∙ own_kept),
        )
    | inl more ↦ added more
  ]
    where
      added :
          ltb_ℤ quantity_tolerance (last m r).remaining_quantity ≡ true
          → (side_of (opposite r.side) (view (book_after m r))
              ≡ side_of (opposite r.side) (view (last m r).book))
            × KeptOrPlaced r
                (order_id m r)
                (side_of r.side (view (book m r)))
                (side_of r.side (view (book_after m r)))
      added more =
          let p =
            admitted (view (last m r).book) r (order_id m r) (client_order_id m r) (total m r) in
          let e : view (book_after m r)
              ≡ (adds_at (view (last m r).book) r (order_id m r) (client_order_id m r) (total m r)
                  p).0 =
            ap (λ (x : OrderBook × Bool). view x.0)
              (rested-more r (order_id m r) (client_order_id m r) (total m r) (last m r) more)
            ∙ ap (λ (x : AbstractBook × Bool). x.0)
                (add_order_refines (last m r).book r (order_id m r) (client_order_id m r)
                  (total m r) ended.valid) in
          let (there, here) =
            side_of-adds_at (view (last m r).book) r (order_id m r) (client_order_id m r)
              (total m r) p
              (admitted-price (view (last m r).book) r (order_id m r) (client_order_id m r)
                (total m r)) in
          (
            ap (side_of (opposite r.side)) e ∙ there,
            subst (λ l. KeptOrPlaced r (order_id m r) l (side_of r.side (view (book_after m r))))
                own_kept
                (subst (KeptOrPlaced r (order_id m r) (side_of r.side (view (last m r).book)))
                  (sym (ap (side_of r.side) e)) here),
          )

-- From the engine `m` to `m'` the fills take the other side from its front, and at most the order `k`
-- is added to the side of the request.
abbrev pub TradesInOrder :
    OrderRequest → String → MatchingEngine → MatchingEngine → List FillEvent → Type 0
TradesInOrder r k m m' fs =
    Taken (trading_side m r.instrument (opposite r.side)) fs
      (trading_side m' r.instrument (opposite r.side))
    × KeptOrPlaced r k (trading_side m r.instrument r.side) (trading_side m' r.instrument r.side)

-- `submit` keeps price and time priority: its fills take the orders of the other side from the front of the
-- list in which they trade, best price first and then first come, each at its own price and whole,
-- to the tolerance, but for the last, whose order may stay in front with less; and on its own side at most one
-- order is added, the new one at its limit price, behind all that its price does not come before.
-- The engine's books are to be valid.
pub submit-TradesInOrder :
    (m : MatchingEngine) (r : OrderRequest)
    → HasValidBooks m
    → TradesInOrder r (order_id_of m.next_order_id) m (submit m r).0 (submit m r).1.fills
submit-TradesInOrder m r v = by_case (submit-SubmitCase m r)
  where
    by_case : SubmitCase m r → TradesInOrder r (order_id m r) m (submit m r).0 (submit m r).1.fills
    by_case (turned_away reason why e) =
        subst
          (λ (x : MatchingEngine × ExecutionResult). TradesInOrder r (order_id m r) m x.0 x.1.fills)
          (sym e) (nothing _, inl refl)
    by_case (accepted p l e above more s) =
        let now : book_for (submit m r).0.books r.instrument ≡ book_after m r =
          ap (λ x. book_for x r.instrument) (books_after m r s)
          ∙ ap (λ x. value_or x (new_book r.instrument))
              (lookup-insert_self r.instrument.instrument_id (book_after m r) m.books) in
        let (fs, told, taken) =
          match_loop-Taken r (order_id m r) (match_fuel r (book m r))
            (matching_start (registered m r) r (order_id m r))
            (book_for-IsValid m r.instrument v).0 in
        let (there, here) = book_after-sides m r v in
        (
          subst
              (λ x.
                Taken (trading_side m r.instrument (opposite r.side)) x
                  (trading_side (submit m r).0 r.instrument (opposite r.side)))
              (sym (fills_after m r s ∙ told))
              (subst (Taken (trading_side m r.instrument (opposite r.side)) fs)
                (sym (ap (λ x. side_of (opposite r.side) (view x)) now ∙ there)) taken),
          subst (KeptOrPlaced r (order_id m r) (trading_side m r.instrument r.side))
              (sym (ap (λ x. side_of r.side (view x)) now)) here,
        )
