-- ===== src/FileStore/Journals/Intents.antt =====
-- The order intents of src/infrastructure/postgres_repositories.cpp: those without a price do not
-- survive a restart, since their lines end in an empty field, which `split_tsv` does not return.
use mathlib.Core.List.{append-nil, append_assoc}
use wall.Core.{Double}
use wall.Fields.Digits.{print_integer-IsField}
use wall.Fields.Doubles.{
  DoubleText, IsNumeric, OptionSurvives, Survives, Survives-ne_nil, decode-encode_optional_double,
  encode_optional_double, encode_optional_double-IsField, stod-Survives,
}
use wall.Fields.Instruments.{shown17-IsField}
use wall.Fields.Integers.{print_integer}
use wall.Fields.Laws.{HasLast, IsField, lines_of-file_of, split_tsv-empty_last}
use wall.FileStore.{
  load, no_journal, open_journal, push_back, read_rows, side_index, type_index, written,
}
use wall.FileStore.Enumerators.{read_side-side_index, read_type-type_index}
use wall.FileStore.Journals.{append_intent, intent_fields, intent_of, open_intents}
use wall.FileStore.Reload.{Storable, line_of, lines-Lacks, read_rows-line_of}
use wall.FileStore.Resume.{file_with, journal_of-file_with}
use wall.Prelude.{
  All, All-map, List, Option-cases, String, [], ap, foldl, if◌then◌else◌, inl, inr, is_some, map,
  none, refl, some, subst, sym, ◌++◌, ◌∙◌, ◌∷◌, ◌≡◌, ◌⊳◌,
}
use wall.Storage.{OrderIntentRecord}

pub record WritableIntent (N : DoubleText) (i : OrderIntentRecord) : Type 0 where
  pub id_field : IsField i.request_id
  pub strategy_field : IsField i.strategy_id
  pub instrument_field : IsField i.instrument_id
  pub quantity_survives : Survives N N.shown17 i.quantity
  pub price_survives : OptionSurvives N i.price

-- The intents that have a price, in their order.
abbrev pub priced : List OrderIntentRecord → List OrderIntentRecord
priced [] = []
priced (i ∷ is) = if is_some i.price then i ∷ priced is else priced is

WritableIntent-IsField :
    (N : DoubleText) (i : OrderIntentRecord)
    → IsNumeric N
    → WritableIntent N i
    → All IsField (intent_fields N i)
unfolding intent_fields
WritableIntent-IsField N i n w =
    w.id_field
    ⊳ w.strategy_field
    ⊳ w.instrument_field
    ⊳ print_integer-IsField (side_index i.side)
    ⊳ print_integer-IsField (type_index i.order_type)
    ⊳ shown17-IsField N n i.quantity
    ⊳ encode_optional_double-IsField N i.price n
    ⊳ tt

intent_of-intent_fields :
    (N : DoubleText) (i : OrderIntentRecord)
    → IsNumeric N
    → WritableIntent N i
    → intent_of N (intent_fields N i) ≡ some i
unfolding intent_of intent_fields
intent_of-intent_fields N i n w =
    rw
      (
        read_side-side_index i.side,
        read_type-type_index i.order_type,
        stod-Survives N N.shown17 i.quantity w.quantity_survives,
        decode-encode_optional_double N i.price n w.price_survives,
      )
      refl

last_price :
    (N : DoubleText) (i : OrderIntentRecord) (p : Double)
    → IsNumeric N
    → WritableIntent N i
    → i.price ≡ some p
    → HasLast (intent_fields N i)
unfolding intent_fields encode_optional_double
last_price N i p n w e =
    rw e (Survives-ne_nil N N.fixed p n (subst (OptionSurvives N) e w.price_survives))

priced-Storable :
    (N : DoubleText) (i : OrderIntentRecord) (p : Double)
    → IsNumeric N
    → WritableIntent N i
    → i.price ≡ some p
    → Storable 7 (intent_of N) (intent_fields N) i
unfolding intent_fields
priced-Storable N i p n w e = record {
  fields = WritableIntent-IsField N i n w;
  last = last_price N i p n w e;
  width_is = refl;
  read = intent_of-intent_fields N i n w;
}

abbrev intent_line : DoubleText → OrderIntentRecord → String
intent_line N = line_of 7 (intent_of N) (intent_fields N)

-- The line of an intent without a price has six fields, and is skipped.
unpriced_skipped :
    (N : DoubleText) (i : OrderIntentRecord) (ls : List String) (s : List OrderIntentRecord)
    → IsNumeric N
    → WritableIntent N i
    → i.price ≡ none
    → read_rows 7 (intent_of N) push_back (intent_line N i ∷ ls) s
      ≡ read_rows 7 (intent_of N) push_back ls s
unfolding read_rows intent_fields encode_optional_double
unpriced_skipped N i ls s n w e =
    rw
      (
        e,
        split_tsv-empty_last
            (i.request_id
              ∷ i.strategy_id
              ∷ i.instrument_id
              ∷ print_integer (side_index i.side)
              ∷ print_integer (type_index i.order_type)
              ∷ N.shown17 i.quantity
              ∷ [])
            (w.id_field.0
              ⊳ w.strategy_field.0
              ⊳ w.instrument_field.0
              ⊳ (print_integer-IsField (side_index i.side)).0
              ⊳ (print_integer-IsField (type_index i.order_type)).0
              ⊳ (shown17-IsField N n i.quantity).0
              ⊳ tt)
            (λ h. cc),
      )
      refl

priced-none :
    (i : OrderIntentRecord) (is : List OrderIntentRecord)
    → i.price ≡ none
    → priced (i ∷ is) ≡ priced is
priced-none i is e = rw e refl

priced-some :
    (i : OrderIntentRecord) (p : Double) (is : List OrderIntentRecord)
    → i.price ≡ some p
    → priced (i ∷ is) ≡ i ∷ priced is
priced-some i p is e = rw (ap is_some e) refl

read_rows-priced :
    (N : DoubleText) (is s : List OrderIntentRecord)
    → IsNumeric N
    → All (WritableIntent N) is
    → read_rows 7 (intent_of N) push_back (map (intent_line N) is) s ≡ some (s ++ priced is)
unfolding read_rows
read_rows-priced N [] s n w = ap some (sym (append-nil s))
read_rows-priced N (i ∷ is) s n w = elim (Option-cases i.price) [
  | inl e ↦
      unpriced_skipped N i (map (intent_line N) is) s n w.0 e
      ∙ read_rows-priced N is s n w.1
      ∙ ap (λ x. some (s ++ x)) (sym (priced-none i is e))
  | inr (p, e) ↦
      read_rows-line_of 7 (intent_of N) (intent_fields N) push_back i (map (intent_line N) is) s
        (priced-Storable N i p n w.0 e)
      ∙ read_rows-priced N is (push_back i s) n w.1
      ∙ ap some (append_assoc s (i ∷ []) (priced is))
      ∙ ap (λ x. some (s ++ x)) (sym (priced-some i p is e))
]

file_with-priced :
    (N : DoubleText) (is : List OrderIntentRecord)
    → IsNumeric N
    → All (WritableIntent N) is
    → load 7 (intent_of N) push_back (file_with (intent_fields N) is) [] ≡ some (priced is)
unfolding load written
file_with-priced N [] n w = refl
file_with-priced N (i ∷ is) n w =
    ap (λ ls. read_rows 7 (intent_of N) push_back ls [])
      (lines_of-file_of (map (intent_line N) (i ∷ is)) (
        lines-Lacks 7 (intent_of N) (intent_fields N) (i ∷ is)
          (All-map (λ j h. WritableIntent-IsField N j n h) (i ∷ is) w)))
    ∙ read_rows-priced N (i ∷ is) [] n w

-- Of the intents that were appended to a new intent repository, one that is opened on the file that it
-- left has those with a price, in their order, and none of the market orders, which have no price: if
-- the texts hold no tab and no line end, and the numbers come back from the digits that are
-- written of them.
pub open_intents-priced :
    (N : DoubleText) (is : List OrderIntentRecord)
    → IsNumeric N
    → All (WritableIntent N) is
    → open_intents N (foldl (append_intent N) no_journal is).file
      ≡ some (record { rows = priced is; file = (foldl (append_intent N) no_journal is).file })
unfolding open_intents append_intent open_journal
open_intents-priced N is n w =
    rw (journal_of-file_with (intent_fields N) is, file_with-priced N is n w) refl
