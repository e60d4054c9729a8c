-- ===== src/FileStore/Resume.antt =====
-- A vector that is written after each `push_back` is found again after a restart
-- (src/infrastructure/postgres_repositories.cpp).
use mathlib.Core.List.{append-nil, append_assoc}
use wall.FileStore.{File, appended, journal_of, load, open_journal, push_back, written}
use wall.FileStore.Reload.{Storable, load-written}
use wall.Prelude.{
  All, List, Option, String, [], ap, foldl, none, refl, some, sym, ℕ, ◌++◌, ◌∙◌, ◌∷◌, ◌≡◌,
}

foldl-push_back : {R : Type 0} (rs s : List R) → foldl (λ s r. push_back r s) s rs ≡ s ++ rs
foldl-push_back [] s = sym (append-nil s)
foldl-push_back (r ∷ rs) s = foldl-push_back rs (push_back r s) ∙ append_assoc s (r ∷ []) rs

module _ {R : Type 0} (fields_of : R → List String) where
  -- The file of a vector, none before the first row.
  abbrev pub file_with : List R → File
  file_with [] = none
  file_with (r ∷ rs) = written fields_of (r ∷ rs)

  appended-file_with :
      (rs : List R) (r : R)
      → appended fields_of (record { rows = rs; file = file_with rs }) r
        ≡ record { rows = push_back r rs; file = file_with (push_back r rs) }
  unfolding appended
  appended-file_with [] r = refl
  appended-file_with (x ∷ rs) r = refl

  journal_from :
      (rs s : List R)
      → foldl (appended fields_of) (record { rows = s; file = file_with s }) rs
        ≡ record { rows = s ++ rs; file = file_with (s ++ rs) }
  journal_from [] s = ap (λ x. record { rows = x; file = file_with x }) (sym (append-nil s))
  journal_from (r ∷ rs) s =
      ap (λ j. foldl (appended fields_of) j rs) (appended-file_with s r)
      ∙ journal_from rs (push_back r s)
      ∙ ap (λ x. record { rows = x; file = file_with x }) (append_assoc s (r ∷ []) rs)

  pub journal_of-file_with :
      (rs : List R) → journal_of fields_of rs ≡ record { rows = rs; file = file_with rs }
  journal_of-file_with rs = journal_from rs []

  file_with-reopened :
      (width : ℕ) (record_of : List String → Option R) (rs : List R)
      → All (Storable width record_of fields_of) rs
      → open_journal width record_of (file_with rs)
        ≡ some (record { rows = rs; file = file_with rs })
  unfolding open_journal load
  file_with-reopened width record_of [] h = refl
  file_with-reopened width record_of (r ∷ rs) h =
      rw
        (
          load-written width record_of fields_of push_back (r ∷ rs) [] h,
          foldl-push_back (r ∷ rs) [],
        )
        refl

  -- A new journal to which rows were appended holds them, and is the one that a restart opens.
  pub open_journal-journal_of :
      (width : ℕ) (record_of : List String → Option R) (rs : List R)
      → All (Storable width record_of fields_of) rs
      → (open_journal width record_of (journal_of fields_of rs).file
          ≡ some (journal_of fields_of rs))
        × ((journal_of fields_of rs).rows ≡ rs)
  open_journal-journal_of width record_of rs h =
      rw (journal_of-file_with rs) (file_with-reopened width record_of rs h, refl)
