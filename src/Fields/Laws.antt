-- ===== src/Fields/Laws.antt =====
-- What is written between separators is read back.
use Prim.Native.String.{◌++◌ as ◌<>◌}
use Prim.Native.Char.{Char, code}
use text.Mathlib.TextLemmas.{cons-append, cons-ne-nil, nil-append}
use wall.Fields.{cut_at, file_of, joined, lines_of, split_on, split_tsv, tab_separated}
use wall.Prelude.{
  All, Bool, List, String, [], ap, arith, false, not, refl, some, true, ℕ, ◌&&◌, ◌++◌, ◌==◌, ◌∙◌,
  ◌∷◌, ◌≡◌, ◌≢◌,
}

-- The text does not hold the character.
abbrev pub Lacks : ℕ → String → Type 0
Lacks sep String.[] = Unit {0}
Lacks sep (String.◌∷◌ c s) = ((code c == sep) ≡ false) × Lacks sep s

pub split_on-append :
    (sep : ℕ) (s : String) (c : Char) (t : String)
    → (code c == sep) ≡ true
    → Lacks sep s
    → split_on sep (s <> String.◌∷◌ c t) ≡ s ∷ split_on sep t
unfolding split_on
split_on-append sep String.[] c t h l = rw (nil-append, h) refl
split_on-append sep (String.◌∷◌ x s) c t h l =
    rw (cons-append, l.0, split_on-append sep s c t h l.1) refl

pub one_char : (c : Char) (t : String) → String.◌∷◌ c String.[] <> t ≡ String.◌∷◌ c t
one_char c t = cons-append c String.[] t ∙ ap (String.◌∷◌ c) (nil-append t)

pub split_on-separated :
    (sep : ℕ) (s : String) (c : Char) (t : String)
    → (code c == sep) ≡ true
    → Lacks sep s
    → split_on sep (s <> (String.◌∷◌ c String.[] <> t)) ≡ s ∷ split_on sep t
split_on-separated sep s c t h l =
    ap (λ x. split_on sep (s <> x)) (one_char c t) ∙ split_on-append sep s c t h l

split_on-last : (sep : ℕ) (s : String) → Lacks sep s → s ≢ String.[] → split_on sep s ≡ s ∷ []
unfolding split_on
split_on-last sep String.[] l h = absurd (h refl)
split_on-last sep (String.◌∷◌ x String.[]) l h = rw l.0 refl
split_on-last sep (String.◌∷◌ x (String.◌∷◌ y s)) l h =
    rw (l.0, split_on-last sep (String.◌∷◌ y s) l.1 (cons-ne-nil y s)) refl

pub append-ne_nil : (s t : String) → s ≢ "" → s <> t ≢ ""
append-ne_nil String.[] t h = absurd (h refl)
append-ne_nil (String.◌∷◌ c s) t h = rw cons-append (cons-ne-nil c (s <> t))

pub cut_at-append :
    (sep : ℕ) (s : String) (c : Char) (t : String)
    → (code c == sep) ≡ true
    → Lacks sep s
    → cut_at sep (s <> String.◌∷◌ c t) ≡ some (s, t)
unfolding cut_at
cut_at-append sep String.[] c t h l = rw (nil-append, h) refl
cut_at-append sep (String.◌∷◌ x s) c t h l =
    rw (cons-append, l.0, cut_at-append sep s c t h l.1) refl

pub Lacks-append : (sep : ℕ) (s t : String) → Lacks sep s → Lacks sep t → Lacks sep (s <> t)
Lacks-append sep String.[] t h g = rw nil-append g
Lacks-append sep (String.◌∷◌ c s) t h g = rw cons-append (h.0, Lacks-append sep s t h.1 g)

-- Fields without a tab, the last of them not empty, come back from their line.
abbrev pub HasLast : List String → Type 0
HasLast [] = ⊥
HasLast (s ∷ []) = s ≢ String.[]
HasLast (s ∷ t ∷ ss) = HasLast (t ∷ ss)

pub split_on-joined :
    (sep : ℕ) (c : Char) (ss : List String)
    → (code c == sep) ≡ true
    → All (Lacks sep) ss
    → HasLast ss
    → split_on sep (joined (String.◌∷◌ c String.[]) ss) ≡ ss
unfolding joined
split_on-joined sep c [] e l h = absurd h
split_on-joined sep c (s ∷ []) e l h = split_on-last sep s l.0 h
split_on-joined sep c (s ∷ t ∷ ss) e l h =
    split_on-separated sep s c (joined (String.◌∷◌ c String.[]) (t ∷ ss)) e l.0
    ∙ ap (◌∷◌ s) (split_on-joined sep c (t ∷ ss) e l.1 h)

pub split_tsv-tab_separated :
    (ss : List String) → All (Lacks b'\t') ss → HasLast ss → split_tsv (tab_separated ss) ≡ ss
unfolding split_tsv
split_tsv-tab_separated ss l h = split_on-joined b'\t' "\t" ss refl l h

-- An empty field at the end of a line does not come back.
pub split_tsv-empty_last :
    (ss : List String)
    → All (Lacks b'\t') ss
    → ss ≢ []
    → split_tsv (tab_separated (ss ++ ("" ∷ []))) ≡ ss
unfolding split_tsv joined split_on
split_tsv-empty_last [] l h = absurd (h refl)
split_tsv-empty_last (s ∷ []) l h = split_on-separated b'\t' s "\t" "" refl l.0
split_tsv-empty_last (s ∷ t ∷ ss) l h =
    split_on-separated b'\t' s "\t" (tab_separated (t ∷ ss ++ ("" ∷ []))) refl l.0
    ∙ ap (◌∷◌ s) (split_tsv-empty_last (t ∷ ss) l.1 (λ e. cc))

pub joined-Lacks :
    (sep : ℕ) (glue : String) (ss : List String)
    → Lacks sep glue
    → All (Lacks sep) ss
    → Lacks sep (joined glue ss)
unfolding joined
joined-Lacks sep glue [] n l = tt
joined-Lacks sep glue (s ∷ []) n l = l.0
joined-Lacks sep glue (s ∷ t ∷ ss) n l =
    Lacks-append sep s _ l.0 (Lacks-append sep glue _ n (joined-Lacks sep glue (t ∷ ss) n l.1))

-- The lines of a file come back from it.
pub lines_of-file_of : (ls : List String) → All (Lacks b'\n') ls → lines_of (file_of ls) ≡ ls
unfolding lines_of file_of split_on
lines_of-file_of [] h = refl
lines_of-file_of (l ∷ ls) h =
    split_on-separated b'\n' l "\n" (file_of ls) refl h.0 ∙ ap (◌∷◌ l) (lines_of-file_of ls h.1)

-- A text that may stand between tabs on a line.
abbrev pub IsField : String → Type 0
IsField s = Lacks b'\t' s × Lacks b'\n' s

pub fields-Lacks_tab : (ss : List String) → All IsField ss → All (Lacks b'\t') ss
fields-Lacks_tab [] h = tt
fields-Lacks_tab (s ∷ ss) h = (h.0.0, fields-Lacks_tab ss h.1)

pub fields-Lacks_newline : (ss : List String) → All IsField ss → All (Lacks b'\n') ss
fields-Lacks_newline [] h = tt
fields-Lacks_newline (s ∷ ss) h = (h.0.1, fields-Lacks_newline ss h.1)

-- The test that a text holds no such character.
unfoldable pub lacks : ℕ → String → Bool
lacks sep String.[] = true
lacks sep (String.◌∷◌ c s) = not (code c == sep) && lacks sep s

pub lacks-Lacks : (sep : ℕ) (s : String) → lacks sep s ≡ true → Lacks sep s
unfolding lacks
lacks-Lacks sep String.[] h = tt
lacks-Lacks sep (String.◌∷◌ c s) h = (ground arith, lacks-Lacks sep s (ground arith))

pub tag-IsField : (s : String) → lacks b'\t' s ≡ true → lacks b'\n' s ≡ true → IsField s
tag-IsField s h g = (lacks-Lacks b'\t' s h, lacks-Lacks b'\n' s g)
