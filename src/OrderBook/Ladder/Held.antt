-- ===== src/OrderBook/Ladder/Held.antt =====
-- The index of a book (src/execution/order_book.cpp) and the abstract lists know the same orders.
use wall.Core.{Double, OrderSide, buy, sell}
use wall.OrderBook.{OrderBook, OrderLocator, levels_of}
use wall.OrderBook.Changes.{find_held}
use wall.OrderBook.Ladder.{find, held, ladder, view}
use wall.OrderBook.Ladder.Taking.{Once, find-ladder, find-pass}
use wall.OrderBook.PriceLevels.{Levels, RestingOrder, find_in_queue, level_find}
use wall.OrderBook.Ranked.{IsRanked}
use wall.OrderBook.Stocked.{IsStocked}
use wall.OrderBook.Validity.{IsValid, LocatedAt}
use wall.OrderBook.Weigh.{is_id, weigh}
use wall.Prelude.{Option-cases, String, [], arith, inl, inr, none, refl, some, subst, ◌∙◌, ◌∷◌, ◌≡◌}
use wall.Prelude.Dict.{lookup}

find-absent : (k : String) (ls : Levels) → weigh (is_id k) ls ≡ 0 → find k (ladder ls) ≡ none
unfolding weigh ladder find
find-absent k [] h = refl
find-absent k ((p, q) ∷ ls) h =
    find-pass k p q (ladder ls) (omega arith) ∙ find-absent k ls (omega arith)

find-present :
    (s : OrderSide) (k : String) (price : Double) (ls : Levels)
    → Once k s price ls
    → IsRanked s ls
    → IsStocked s ls
    → (o : RestingOrder) × (find_in_queue k (level_find price ls) ≡ some o)
      × (find k (ladder ls) ≡ some o)
find-present s k price ls once r st =
    let (o, e) = find_held s k price ls r st once.1 in (o, e, find-ladder k s price ls o once e)

-- What the index says of an identifier, and where the abstract book holds it.
pub data HeldCase (b : OrderBook) (k : String) : Type 0 where
  absent : lookup k b.order_index ≡ none → held k (view b) ≡ none → HeldCase b k
  present :
      (at : OrderLocator) (o : RestingOrder)
      → lookup k b.order_index ≡ some at
      → held k (view b) ≡ some (at.side, o)
      → Once k at.side at.price (levels_of at.side b)
      → find_in_queue k (level_find at.price (levels_of at.side b)) ≡ some o
      → HeldCase b k

pub held_cases : (b : OrderBook) (k : String) → IsValid b → HeldCase b k
unfolding held view
held_cases b k v = elim (Option-cases (lookup k b.order_index)) [
  | inl e ↦ none_held e (subst (LocatedAt b k) e (v.located k))
  | inr (at, e) ↦ one_held at e (subst (LocatedAt b k) e (v.located k))
]
  where
    none_held : lookup k b.order_index ≡ none → LocatedAt b k none → HeldCase b k
    none_held e l =
        let bid = find-absent k b.bid_levels l.0 in
        let ask = find-absent k b.ask_levels l.1 in absent e (rw (bid, ask))

    one_held :
        (at : OrderLocator)
        → lookup k b.order_index ≡ some at
        → LocatedAt b k (some at)
        → HeldCase b k
    one_held at e l =
        let (o, q, f) =
          find-present at.side k at.price (levels_of at.side b) (l.0, l.2) (v.ranked at.side)
            (v.stocked at.side) in
        present at o e (on at.side at.price l f) (l.0, l.2) q
      where
        on :
            {o : RestingOrder} (s : OrderSide) (p : Double)
            → LocatedAt b k (some (record { side = s; price = p }))
            → find k (ladder (levels_of s b)) ≡ some o
            → held k (view b) ≡ some (s, o)
        on buy p l f = rw f
        on sell p l f = rw (find-absent k b.bid_levels l.1, f)
