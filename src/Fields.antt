-- ===== src/Fields.antt =====
-- Texts cut at a separator, as the files, the log and the payloads of the repository are read:
-- `std::getline` with a delimiter, `find` with `substr`, and lines of fields between tabs.
pub mod Laws
pub mod Integers
pub mod Digits
pub mod Doubles
pub mod Instruments
use Prim.Native.String.{◌++◌ as ◌<>◌}
use Prim.Native.Char.{Char, code}
use wall.Prelude.{List, Option, String, [], if◌then◌else◌, none, refl, some, ℕ, ◌==◌, ◌∷◌, ◌≡◌}

-- A call that may throw, or that returns nothing.
infixl 5 ◌>>=◌
abbrev pub ◌>>=◌ {ℓ κ} : {A : Type ℓ} {B : Type κ} → Option A → (A → Option B) → Option B
none >>= f = none
some a >>= f = f a

-- `std::getline` until the stream is at its end: a separator at the very end adds no empty text.
abbrev pub push_char : Char → List String → List String
push_char c [] = String.◌∷◌ c String.[] ∷ []
push_char c (s ∷ ss) = String.◌∷◌ c s ∷ ss

unfoldable pub split_on : ℕ → String → List String
split_on sep String.[] = []
split_on sep (String.◌∷◌ c s) =
    let rest = split_on sep s in if code c == sep then String.[] ∷ rest else push_char c rest

-- `find(sep)` with the two `substr`s around it; `none` is `npos`.
abbrev pub push_first : Char → Option (String × String) → Option (String × String)
push_first c none = none
push_first c (some (s, t)) = some (String.◌∷◌ c s, t)

unfoldable pub cut_at : ℕ → String → Option (String × String)
cut_at sep String.[] = none
cut_at sep (String.◌∷◌ c s) =
    let rest = cut_at sep s in if code c == sep then some (String.[], s) else push_first c rest

-- What `<< a << sep << b …` writes.
unfoldable pub joined : String → List String → String
joined sep [] = ""
joined sep (s ∷ []) = s
joined sep (s ∷ t ∷ ss) = s <> (sep <> joined sep (t ∷ ss))

abbrev pub tab_separated : List String → String
tab_separated = joined "\t"

unfoldable pub split_tsv : String → List String
split_tsv = split_on b'\t'

-- The lines of a file, each with its '\n'.
unfoldable pub file_of : List String → String
file_of [] = ""
file_of (l ∷ ls) = l <> ("\n" <> file_of ls)

unfoldable pub lines_of : String → List String
lines_of = split_on b'\n'

split_test : split_tsv "a\t\tb\t" ≡ "a" ∷ "" ∷ "b" ∷ []
unfolding split_tsv split_on
split_test = refl
