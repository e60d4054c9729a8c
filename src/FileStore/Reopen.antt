-- ===== src/FileStore/Reopen.antt =====
-- A map that is written after each change is found again after a restart
-- (src/infrastructure/postgres_repositories.cpp).
use wall.FileStore.{Format, Table, flush, load, no_table, open_table, saved, stored}
use wall.FileStore.Reload.{Storable, load-flush}
use wall.Prelude.{
  List, Option-cases, String, [], ap, arith, foldl, inl, inr, none, refl, some, some_inj, sym, ◌∙◌,
  ◌∷◌, ◌≡◌, ◌⊎◌,
}
use wall.Prelude.Dict.{Dict, lookup, lookup-insert_ne, lookup-insert_self, lookup-modify, modify}
use wall.Prelude.Text.{dec_str}

module _ {ℓ} {R : Type ℓ} (F : Format R) where
  -- Each record stands under its own key.
  abbrev pub IsKeyedBy : Dict R → Type ℓ
  IsKeyedBy d = (k : String) (r : R) → lookup k d ≡ some r → F.key r ≡ k

  pub stored-IsKeyedBy : (d : Dict R) (r : R) → IsKeyedBy d → IsKeyedBy (stored F r d)
  stored-IsKeyedBy d r h k x e = elim (dec_str k (F.key r)) [
    | yes hit ↦ sym (
        hit
        ∙ ap F.key (
            some_inj
              (sym (ap (λ y. lookup y (stored F r d)) hit ∙ lookup-insert_self (F.key r) r d) ∙ e)))
    | no miss ↦ h k x (sym (lookup-insert_ne k (F.key r) r d miss) ∙ e)
  ]

  pub modify-IsKeyedBy :
      (d : Dict R) (j : String) (f : R → R)
      → ((x : R) → F.key (f x) ≡ F.key x)
      → IsKeyedBy d
      → IsKeyedBy (modify j f d)
  modify-IsKeyedBy d j f same h k x e = elim (Option-cases (lookup k d)) [
    | inl none_there ↦ absurd (ground (arith, lookup-modify k j f d))
    | inr (y, there) ↦ elim (dec_str k j) [
      | yes hit ↦
          let changed : f y ≡ x = ground (arith, lookup-modify k j f d) in
          ap F.key (sym changed) ∙ same y ∙ h k y there
      | no miss ↦
          let kept : y ≡ x = ground (arith, lookup-modify k j f d) in
          ap F.key (sym kept) ∙ h k y there
    ]
  ]

  -- The file holds what the map holds.
  pub record IsSaved (t : Table R) : Type ℓ where
    pub written : (t.file ≡ flush F.fields_of t.rows) ⊎ ((t.file ≡ none) × (t.rows ≡ []))
    pub keyed : IsKeyedBy t.rows

  pub no_table-IsSaved : IsSaved no_table
  unfolding lookup
  no_table-IsSaved = record { written = inr (refl, refl); keyed = λ k r h. cc }

  pub saved-IsSaved : (d : Dict R) → IsKeyedBy d → IsSaved (saved F d)
  saved-IsSaved d h = record { written = inl refl; keyed = h }

  calls_from-IsSaved :
      {C : Type 0} (call : Table R → C → Table R)
      → ((t : Table R) (c : C) → IsSaved t → IsSaved (call t c))
      → (cs : List C) (t : Table R) → IsSaved t
      → IsSaved (foldl call t cs)
  calls_from-IsSaved call keeps [] t h = h
  calls_from-IsSaved call keeps (c ∷ cs) t h =
      calls_from-IsSaved call keeps cs (call t c) (keeps t c h)

  -- Calls that each leave the map in its file leave it there.
  pub calls-IsSaved :
      {C : Type 0} (call : Table R → C → Table R)
      → ((t : Table R) (c : C) → IsSaved t → IsSaved (call t c))
      → (cs : List C) → IsSaved (foldl call no_table cs)
  calls-IsSaved call keeps cs = calls_from-IsSaved call keeps cs no_table no_table-IsSaved

  abbrev pub AllStorable : Table R → Type ℓ
  AllStorable t =
      (k : String) (r : R) → lookup k t.rows ≡ some r → Storable F.width F.record_of F.fields_of r

  -- A restart opens the file of a saved map, and finds under each key the record that stood there.
  pub open_table-IsSaved :
      (t : Table R)
      → IsSaved t
      → AllStorable t
      → (t' : Table R) × (open_table F t.file ≡ some t')
        × ((k : String) → lookup k t'.rows ≡ lookup k t.rows)
  unfolding open_table load
  open_table-IsSaved t h st = elim h.written [
    | inl e ↦
        let (d, read, same) =
          load-flush F.width F.record_of F.fields_of F.key t.rows
            (λ k r l. (h.keyed k r l, st k r l)) in
        (record { rows = d; file = t.file }, rw e (rw read refl), same)
    | inr (e, none_there) ↦
        (record { rows = []; file = t.file }, rw e refl, λ k. ap (lookup k) (sym none_there))
  ]
