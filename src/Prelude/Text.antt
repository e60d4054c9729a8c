-- ===== src/Prelude/Text.antt =====
-- Texts: equality as a decision, and the decimal text of a `std::size_t`.
use Prim.Native.Nat.{ℕ, zero, suc, ◌/◌, ◌%◌}
use Prim.Native.Char.{Char, code}
use Prim.Native.String.{String, ◌++◌}
use mathlib.Core.Path.{◌≡◌, refl, sym, ◌∙◌}
use mathlib.Core.Logic.{◌≢◌, if_neg, if_pos, ite}
use mathlib.Core.Bool.{Bool, true, false, false≢true}
use text.Mathlib.Text.{◌==◌ as str_eq}
use text.Mathlib.TextEquality.{eq_iff}
use wall.Prelude.Tests.{ltb, ◌==◌, if◌then◌else◌}

dec_of : (s t : String) (b : Bool) → str_eq s t ≡ b → Dec (s ≡ t)
dec_of s t true e = yes ((eq_iff s t).0 e)
dec_of s t false e = no (λ p. false≢true (sym e ∙ (eq_iff s t).1 p))

pub ne_of_test : (s t : String) → str_eq s t ≡ false → s ≢ t
ne_of_test s t h p = false≢true (sym h ∙ (eq_iff s t).1 p)

unfoldable pub dec_str : Discrete String
unfolding dec_of
dec_str s t = dec_of s t (str_eq s t) refl

abbrev pub is_empty : String → Bool
is_empty String.[] = true
is_empty (String.◌∷◌ c s) = false

unfoldable pub text_length : String → ℕ
text_length String.[] = 0
text_length (String.◌∷◌ c s) = suc (text_length s)

-- `substr(0, n)` and `substr(n)`
unfoldable pub text_start : ℕ → String → String
text_start n String.[] = ""
text_start zero (String.◌∷◌ c s) = ""
text_start (suc n) (String.◌∷◌ c s) = String.◌∷◌ c (text_start n s)

unfoldable pub text_behind : ℕ → String → String
text_behind n String.[] = ""
text_behind zero (String.◌∷◌ c s) = String.◌∷◌ c s
text_behind (suc n) (String.◌∷◌ c s) = text_behind n s

unfoldable pub digit : ℕ → Char
digit n =
    if n == 0
    then "0"
    else if n == 1
    then "1"
    else if n == 2
    then "2"
    else if n == 3
    then "3"
    else if n == 4
    then "4"
    else if n == 5
    then "5"
    else if n == 6
    then "6"
    else if n == 7
    then "7"
    else if n == 8
    then "8"
    else "9"

unfoldable pub one_digit : ℕ → String
unfolding digit
one_digit n = String.◌∷◌ (digit n) String.[]

-- Decimal digits, most significant first, `rounds + 1` of them at most.
unfoldable pub decimal : ℕ → ℕ → String
unfolding one_digit
decimal zero n = one_digit (n % 10)
decimal (suc rounds) n =
    let rest = decimal rounds (n / 10) in
    if ltb n 10 then one_digit n else rest ++ one_digit (n % 10)

-- `std::to_string` and `<<` of a `std::size_t`: below 2^64 there are at most 20 digits.
unfoldable pub to_string : ℕ → String
unfolding decimal
to_string n = decimal 19 n

to_string_test : to_string 18446744073709551615 ≡ "18446744073709551615"
unfolding to_string
to_string_test = refl

-- `s == t` and the tests for an empty text.
abbrev pub same_text : String → String → Bool
same_text s t = ite (dec_str s t) true false

pub same_text-eq : (s t : String) → same_text s t ≡ true → s ≡ t
same_text-eq s t h = elim (dec_str s t) [
  | yes e ↦ e
  | no n ↦ absurd (false≢true (sym (if_neg (dec_str s t) n true false) ∙ h))
]

pub same_text_of_eq : (s t : String) → s ≡ t → same_text s t ≡ true
same_text_of_eq s t e = if_pos (dec_str s t) e true false

-- The character that stands in the second text where it stands in the first.
unfoldable pub translate : String → String → Char → Char
translate (String.◌∷◌ a from) (String.◌∷◌ b to) c =
    let rest = translate from to c in if code c == code a then b else rest
translate _ _ c = c
