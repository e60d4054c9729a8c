-- ===== src/MatchingEngine/Books.antt =====
-- The invariant of the engine's books (src/execution/matching_engine.cpp).
use wall.Core.{Instrument}
use wall.MatchingEngine.{MatchingEngine, book_for, new_engine}
use wall.OrderBook.{OrderBook, new_book}
use wall.OrderBook.Validity.{IsValid, new_book-IsValid}
use wall.Prelude.{Option, String, ap, none, refl, some, subst, sym, value_or, ◌∙◌, ◌≡◌}
use wall.Prelude.Dict.{insert, lookup, lookup-insert_ne, lookup-insert_self}
use wall.Prelude.Text.{dec_str}

abbrev pub BookAt : String → Option OrderBook → Type 0
BookAt i none = Unit {0}
BookAt i (some b) = IsValid b × (b.instrument.instrument_id ≡ i)

-- Every book is valid and belongs to the instrument that it is filed under.
pub record HasValidBooks (m : MatchingEngine) : Type 0 where
  pub book_at : (i : String) → BookAt i (lookup i m.books)

pub new_engine-HasValidBooks : HasValidBooks new_engine
unfolding new_engine lookup
new_engine-HasValidBooks = record { book_at = λ i. tt }

pub book_for-IsValid :
    (m : MatchingEngine) (i : Instrument)
    → HasValidBooks m
    → IsValid (book_for m.books i)
      × ((book_for m.books i).instrument.instrument_id ≡ i.instrument_id)
unfolding new_book
book_for-IsValid m i v = by_case (lookup i.instrument_id m.books) (v.book_at i.instrument_id)
  where
    by_case :
        (o : Option OrderBook)
        → BookAt i.instrument_id o
        → IsValid (value_or o (new_book i))
          × ((value_or o (new_book i)).instrument.instrument_id ≡ i.instrument_id)
    by_case none h = (new_book-IsValid i, refl)
    by_case (some b) h = h

-- Filing a valid book of its instrument keeps the books valid.
pub insert-HasValidBooks :
    (m m' : MatchingEngine) (i : String) (b : OrderBook)
    → HasValidBooks m
    → IsValid b
    → b.instrument.instrument_id ≡ i
    → m'.books ≡ insert i b m.books
    → HasValidBooks m'
insert-HasValidBooks m m' i b v h n e = record { book_at = λ j. by_case j (dec_str j i) }
  where
    by_case : (j : String) → Dec (j ≡ i) → BookAt j (lookup j m'.books)
    by_case j (yes hit) =
        subst (BookAt j)
          (sym (
            ap (lookup j) e
            ∙ ap (λ x. lookup x (insert i b m.books)) hit
            ∙ lookup-insert_self i b m.books))
          (h, n ∙ sym hit)
    by_case j (no miss) =
        subst (BookAt j) (sym (ap (lookup j) e ∙ lookup-insert_ne j i b m.books miss)) (v.book_at j)

pub same-HasValidBooks :
    (m m' : MatchingEngine) → HasValidBooks m → m'.books ≡ m.books → HasValidBooks m'
same-HasValidBooks m m' v e = record {
  book_at = λ j. subst (λ x. BookAt j (lookup j x)) (sym e) (v.book_at j);
}
