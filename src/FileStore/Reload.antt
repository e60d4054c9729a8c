-- ===== src/FileStore/Reload.antt =====
-- A file that was written is read back (src/infrastructure/postgres_repositories.cpp).
use wall.Fields.{tab_separated}
use wall.Fields.Laws.{
  HasLast, IsField, Lacks, fields-Lacks_newline, fields-Lacks_tab, joined-Lacks, lines_of-file_of,
  split_tsv-tab_separated,
}
use wall.FileStore.{flush, load, read_rows, rows_at, written}
use wall.Prelude.{
  All, All-map, List, Option, Option-cases, String, [], ap, arith, foldl, if_neg, if_pos,
  if◌then◌else◌, inl, inr, ite, length, map, none, refl, some, sym, true, ℕ, ◌&&◌, ◌∙◌, ◌∷◌, ◌≡◌,
}
use wall.Prelude.Dict.{Dict, contains, insert, lookup, lookup-insert_ne, lookup-insert_self}
use wall.Prelude.Sort.{has, has-keys, has-sort, keys, sort}
use wall.Prelude.Text.{dec_str}

-- The record can be written and read: its texts hold no tab and no line end, the last of them is
-- not empty, and its fields give it back.
pub record Storable {ℓ} {R : Type ℓ} (width : ℕ) (record_of : List String → Option R)
    (fields_of : R → List String) (r : R) : Type ℓ where
  pub fields : All IsField (fields_of r)
  pub last : HasLast (fields_of r)
  pub width_is : length (fields_of r) ≡ width
  pub read : record_of (fields_of r) ≡ some r

module _ {ℓ} {R : Type ℓ} (width : ℕ) (record_of : List String → Option R)
    (fields_of : R → List String) where
  abbrev pub line_of : R → String
  line_of r = tab_separated (fields_of r)

  abbrev IsStorable : R → Type ℓ
  IsStorable = Storable width record_of fields_of

  pub read_rows-line_of :
      {S : Type ℓ} (add : R → S → S) (r : R) (ls : List String) (s : S)
      → IsStorable r
      → read_rows width record_of add (line_of r ∷ ls) s
        ≡ read_rows width record_of add ls (add r s)
  unfolding read_rows
  read_rows-line_of add r ls s h =
      rw
        (
          split_tsv-tab_separated (fields_of r) (fields-Lacks_tab (fields_of r) h.fields) h.last,
          h.width_is,
          h.read,
        )
        (ground arith)

  pub read_rows-written :
      {S : Type ℓ} (add : R → S → S) (rs : List R) (s : S)
      → All IsStorable rs
      → read_rows width record_of add (map line_of rs) s ≡ some (foldl (λ s r. add r s) s rs)
  unfolding read_rows
  read_rows-written add [] s h = refl
  read_rows-written add (r ∷ rs) s h =
      read_rows-line_of add r (map line_of rs) s h.0 ∙ read_rows-written add rs (add r s) h.1

  pub lines-Lacks :
      (rs : List R) → All (λ r. All IsField (fields_of r)) rs → All (Lacks b'\n') (map line_of rs)
  lines-Lacks [] h = tt
  lines-Lacks (r ∷ rs) h = (
    joined-Lacks b'\n' "\t" (fields_of r) (refl, tt) (fields-Lacks_newline (fields_of r) h.0),
    lines-Lacks rs h.1,
  )

  -- What was written is loaded, record by record.
  pub load-written :
      {S : Type ℓ} (add : R → S → S) (rs : List R) (s : S)
      → All IsStorable rs
      → load width record_of add (written fields_of rs) s ≡ some (foldl (λ s r. add r s) s rs)
  unfolding load written
  load-written add rs s h =
      ap (λ ls. read_rows width record_of add ls s)
        (lines_of-file_of (map line_of rs) (lines-Lacks rs (All-map (λ r g. g.fields) rs h)))
      ∙ read_rows-written add rs s h

  -- The key of a record is the one that it is stored under, and the record can be written.
  abbrev pub IsKeyed : (R → String) → Dict R → Type ℓ
  IsKeyed key d = (k : String) (r : R) → lookup k d ≡ some r → (key r ≡ k) × IsStorable r

  rows_at-Storable :
      (key : R → String) (ks : List String) (d : Dict R)
      → IsKeyed key d
      → All IsStorable (rows_at fields_of ks d)
  unfolding rows_at
  rows_at-Storable key [] d h = tt
  rows_at-Storable key (k ∷ ks) d h = elim (Option-cases (lookup k d)) [
    | inl e ↦ rw e (rows_at-Storable key ks d h)
    | inr (r, e) ↦ rw e ((h k r e).1, rows_at-Storable key ks d h)
  ]

  abbrev put : (R → String) → R → Dict R → Dict R
  put key r d = insert (key r) r d

  lookup-rows_at :
      (key : R → String) (j : String) (ks : List String) (d s : Dict R)
      → IsKeyed key d
      → lookup j (foldl (λ s r. put key r s) s (rows_at fields_of ks d))
        ≡ (if has j ks && contains j d then lookup j d else lookup j s)
  unfolding rows_at has
  lookup-rows_at key j [] d s h = refl
  lookup-rows_at key j (k ∷ ks) d s h = elim (Option-cases (lookup k d)) [
    | inl e ↦ rw e (lookup-rows_at key j ks d s h ∙ absent e (dec_str j k))
    | inr (r, e) ↦ rw e (lookup-rows_at key j ks d (put key r s) h ∙ known r e (dec_str j k))
  ]
    where
      absent :
          lookup k d ≡ none
          → Dec (j ≡ k)
          → (if has j ks && contains j d then lookup j d else lookup j s)
            ≡ (if ite (dec_str j k) true (has j ks) && contains j d then lookup j d else lookup j s)
      absent e (yes hit) = rw (ap (λ x. lookup x d) hit ∙ e) (ground arith)
      absent e (no miss) = rw (if_neg _ miss) refl

      known :
          (r : R)
          → lookup k d ≡ some r
          → Dec (j ≡ k)
          → (if has j ks && contains j d then lookup j d else lookup j (put key r s))
            ≡ (if ite (dec_str j k) true (has j ks) && contains j d then lookup j d else lookup j s)
      known r e (yes hit) =
          let here : lookup j d ≡ some r = ap (λ x. lookup x d) hit ∙ e in
          let there : lookup j (put key r s) ≡ some r =
            ap (λ x. lookup j (insert x r s)) ((h k r e).0 ∙ sym hit) ∙ lookup-insert_self j r s in
          rw (if_pos _ hit, here, there) (ground arith)
      known r e (no miss) = rw (if_neg _ miss, (h k r e).0, lookup-insert_ne j k r s miss) refl

  -- After a flush a restart finds under each key what was stored there.
  pub load-flush :
      (key : R → String) (d : Dict R)
      → IsKeyed key d
      → (d' : Dict R) × (load width record_of (put key) (flush fields_of d) [] ≡ some d')
        × ((j : String) → lookup j d' ≡ lookup j d)
  unfolding flush lookup
  load-flush key d h = (
    foldl (λ s r. put key r s) [] (rows_at fields_of (sort (keys d)) d),
    load-written (put key) (rows_at fields_of (sort (keys d)) d) []
        (rows_at-Storable key (sort (keys d)) d h),
    λ j. lookup-rows_at key j (sort (keys d)) d [] h ∙ all_there j,
  )
    where
      all_there :
          (j : String)
          → (if has j (sort (keys d)) && contains j d then lookup j d else lookup {V = R} j [])
            ≡ lookup j d
      all_there j = rw (has-sort j (keys d), has-keys j d) (ground arith)
