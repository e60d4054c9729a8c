-- ===== src/Prelude/Sort.antt =====
-- `std::sort` of a vector of texts, and of the keys of a map.
use Prim.Native.String.{compare as compare_str}
use Prim.Native.Nat.{Ordering}
use wall.Prelude.{Bool, List, String, [], arith, false, ite, refl, true, ◌∷◌, ◌≡◌}
use wall.Prelude.Dict.{Dict, contains, lookup}
use wall.Prelude.Text.{dec_str}

insert_sorted : String → List String → List String
insert_sorted k [] = k ∷ []
insert_sorted k (j ∷ l) = elim (compare_str j k) [
  | Ordering.lt ↦ j ∷ insert_sorted k l
  | Ordering.eq ↦ k ∷ j ∷ l
  | Ordering.gt ↦ k ∷ j ∷ l
]

unfoldable pub sort : List String → List String
unfolding insert_sorted
sort [] = []
sort (k ∷ l) = insert_sorted k (sort l)

abbrev pub keys {ℓ} : {V : Type ℓ} → Dict V → List String
keys [] = []
keys ((k, v) ∷ d) = k ∷ keys d

unfoldable pub has : String → List String → Bool
has k [] = false
has k (j ∷ l) = ite (dec_str k j) true (has k l)

has-insert_sorted :
    (k j : String) (l : List String) → has k (insert_sorted j l) ≡ ite (dec_str k j) true (has k l)
unfolding has insert_sorted
has-insert_sorted k j [] = refl
has-insert_sorted k j (i ∷ l) = ground (arith, has-insert_sorted k j l)

-- Sorting keeps the texts.
pub has-sort : (k : String) (l : List String) → has k (sort l) ≡ has k l
unfolding has sort
has-sort k [] = refl
has-sort k (j ∷ l) = ground (arith, has-insert_sorted k j (sort l), has-sort k l)

pub has-keys {ℓ} : {V : Type ℓ} (k : String) (d : Dict V) → has k (keys d) ≡ contains k d
unfolding has lookup
has-keys k [] = refl
has-keys k ((j, v) ∷ d) = ground (arith, has-keys k d)
