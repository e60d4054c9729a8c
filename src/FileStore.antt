-- ===== src/FileStore.antt =====
-- The repositories that keep their records in files of lines and tabs (src/infrastructure/postgres_repositories.cpp,
-- the classes that take a root directory). Here is what they share: a file is read line by line into
-- a map or a vector, and written anew after each change. A file that does not exist is `none`.
pub mod Reload
pub mod Reopen
pub mod Resume
pub mod Enumerators
pub mod Transactions
pub mod Orders
pub mod Journals
pub mod Accounts
use wall.Core.{
  OrderSide, OrderStatus, OrderType, acknowledged, buy, canceled, created, expired, filled, limit,
  market, partially_filled, pending_cancel, pending_submit, rejected, sell,
}
use wall.Fields.{file_of, lines_of, split_tsv, tab_separated}
use wall.Prelude.{
  List, Option, String, [], foldl, if◌then◌else◌, length, map, none, some, suc, zero, ℕ, ◌++◌, ◌==◌,
  ◌∷◌,
}
use wall.Prelude.Dict.{Dict, insert, lookup}
use wall.Prelude.Int.{eqb_ℤ, pos, ℤ}
use wall.Prelude.Sort.{keys, sort}

abbrev pub File : Type 0
File = Option String

-- The loop of `load`: a line with another number of fields is skipped. A number that cannot be read throws out of the
-- constructor: `none`.
abbrev pub added {ℓ κ} : {R : Type ℓ} {S : Type κ} → Option R → (R → Option S) → Option S
added none next = none
added (some r) next = next r

module _ {ℓ κ} {R : Type ℓ} {S : Type κ} (width : ℕ) (record_of : List String → Option R)
    (add : R → S → S) where
  unfoldable pub read_rows : List String → S → Option S
  read_rows [] s = some s
  read_rows (l ∷ ls) s =
      let skipped = read_rows ls s in
      if length (split_tsv l) == width
      then added (record_of (split_tsv l)) (λ r. read_rows ls (add r s))
      else skipped

  unfoldable pub load : File → S → Option S
  unfolding read_rows
  load none s = some s
  load (some text) s = read_rows (lines_of text) s

abbrev row_if {ℓ} : {R : Type ℓ} → Option R → List R → List R
row_if none rs = rs
row_if (some r) rs = r ∷ rs

module _ {ℓ} {R : Type ℓ} (fields_of : R → List String) where
  -- One line for each record.
  unfoldable pub written : List R → File
  written rs = some (file_of (map (λ r. tab_separated (fields_of r)) rs))

  -- `records_.at(key)` for the keys in order.
  unfoldable pub rows_at : List String → Dict R → List R
  rows_at [] d = []
  rows_at (k ∷ ks) d = row_if (lookup k d) (rows_at ks d)

  unfoldable pub flush : Dict R → File
  unfolding written rows_at
  flush d = written (rows_at (sort (keys d)) d)

-- How the records of a map stand in its file, and the key that each is stored under.
pub record Format {ℓ} (R : Type ℓ) : Type ℓ where
  pub width : ℕ
  pub record_of : List String → Option R
  pub fields_of : R → List String
  pub key : R → String

-- A map with its file.
pub record Table {ℓ} (R : Type ℓ) : Type ℓ where
  pub rows : Dict R
  pub file : File

abbrev pub no_table {ℓ} : {R : Type ℓ} → Table R
no_table = record { rows = []; file = none }

-- The constructor: the map as `load` makes it from the file that is there.
abbrev opened {ℓ} : {R : Type ℓ} → File → Option (Dict R) → Option (Table R)
opened file none = none
opened file (some d) = some (record { rows = d; file = file })

module _ {ℓ} {R : Type ℓ} (F : Format R) where
  abbrev pub stored : R → Dict R → Dict R
  stored r d = insert (F.key r) r d

  -- A change of the map with the `flush` that follows it.
  abbrev pub saved : Dict R → Table R
  saved d = record { rows = d; file = flush F.fields_of d }

  unfoldable pub open_table : File → Option (Table R)
  open_table file = opened file (load F.width F.record_of stored file [])

-- A vector with its file.
pub record Journal {ℓ} (R : Type ℓ) : Type ℓ where
  pub rows : List R
  pub file : File

abbrev pub no_journal {ℓ} : {R : Type ℓ} → Journal R
no_journal = record { rows = []; file = none }

abbrev pub push_back {ℓ} : {R : Type ℓ} → R → List R → List R
push_back r rs = rs ++ (r ∷ [])

abbrev resumed {ℓ} : {R : Type ℓ} → File → Option (List R) → Option (Journal R)
resumed file none = none
resumed file (some rs) = some (record { rows = rs; file = file })

unfoldable pub open_journal {ℓ} :
    {R : Type ℓ} → ℕ → (List String → Option R) → File → Option (Journal R)
unfolding load
open_journal width record_of file = resumed file (load width record_of push_back file [])

-- `push_back` with the `flush` that follows it.
unfoldable pub appended {ℓ} : {R : Type ℓ} → (R → List String) → Journal R → R → Journal R
unfolding written
appended fields_of j r = record {
  rows = push_back r j.rows;
  file = written fields_of (push_back r j.rows);
}

-- What appending the rows to a new journal leaves.
abbrev pub journal_of {ℓ} : {R : Type ℓ} → (R → List String) → List R → Journal R
journal_of fields_of rs = foldl (appended fields_of) no_journal rs

-- Enumerators as integers. An integer that names no enumerator, which `static_cast` would let pass,
-- is refused here.
abbrev pub side_index : OrderSide → ℤ
side_index buy = pos 0
side_index sell = pos 1

abbrev pub order_side : ℤ → Option OrderSide
order_side (pos zero) = some buy
order_side (pos (suc zero)) = some sell
order_side _ = none

abbrev pub type_index : OrderType → ℤ
type_index market = pos 0
type_index limit = pos 1

abbrev pub order_type_of : ℤ → Option OrderType
order_type_of (pos zero) = some market
order_type_of (pos (suc zero)) = some limit
order_type_of _ = none

abbrev pub status_index : OrderStatus → ℤ
status_index created = pos 0
status_index pending_submit = pos 1
status_index acknowledged = pos 2
status_index partially_filled = pos 3
status_index filled = pos 4
status_index pending_cancel = pos 5
status_index canceled = pos 6
status_index rejected = pos 7
status_index expired = pos 8

unfoldable pub order_status : ℤ → Option OrderStatus
order_status z =
    if eqb_ℤ z (pos 0)
    then some created
    else if eqb_ℤ z (pos 1)
    then some pending_submit
    else if eqb_ℤ z (pos 2)
    then some acknowledged
    else if eqb_ℤ z (pos 3)
    then some partially_filled
    else if eqb_ℤ z (pos 4)
    then some filled
    else if eqb_ℤ z (pos 5)
    then some pending_cancel
    else if eqb_ℤ z (pos 6)
    then some canceled
    else if eqb_ℤ z (pos 7)
    then some rejected
    else if eqb_ℤ z (pos 8)
    then some expired
    else none
