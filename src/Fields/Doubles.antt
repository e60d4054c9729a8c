-- ===== src/Fields/Doubles.antt =====
-- How the standard library prints and reads a `double`. A double is a number of units of 1e-12 here, and the
-- rounding of its text is not fixed: the functions are a parameter, with what is documented of them.
use mathlib.Core.Option
use Prim.Native.Char.{code}
use wall.Core.{Double}
use wall.Fields.Integers.{is_digit}
use wall.Fields.Laws.{IsField, Lacks}
use wall.Prelude.{
  Bool, Option, String, ap, arith, false, if◌then◌else◌, none, refl, some, true, ℕ, ◌==◌, ◌||◌, ◌≡◌,
  ◌≢◌,
}
use wall.Prelude.Text.{is_empty}

pub record DoubleText : Type 0 where
  -- `<<` with the default precision, six significant digits
  pub shown : Double → String
  -- `<<` after `std::setprecision(17)`
  pub shown17 : Double → String
  -- `std::to_string`, six digits behind the point
  pub fixed : Double → String
  -- `std::stod`, with the text that was not consumed; `none` where it throws
  pub read_double : String → Option (Double × String)

unfoldable pub stod : DoubleText → String → Option Double
stod N s = Option.map (λ r. r.0) (N.read_double s)

-- `encode_optional_double` of the files that have one, and the test with `std::stod` that decodes it.
unfoldable pub encode_optional_double : DoubleText → Option Double → String
encode_optional_double N none = ""
encode_optional_double N (some d) = N.fixed d

abbrev pub present {ℓ} : {A : Type ℓ} → Option A → Option (Option A)
present none = none
present (some a) = some (some a)

unfoldable pub decode_optional_double : DoubleText → String → Option (Option Double)
unfolding stod
decode_optional_double N s = if is_empty s then some none else present (stod N s)

-- The characters of a finite number.
abbrev pub is_numeral : ℕ → Bool
is_numeral c = is_digit c || (c == b'-' || (c == b'+' || (c == b'.' || c == b'e')))

abbrev pub AllNumeral : String → Type 0
AllNumeral String.[] = Unit {0}
AllNumeral (String.◌∷◌ c s) = (is_numeral (code c) ≡ true) × AllNumeral s

-- What is documented: a finite number is printed with digits, signs, a point and an exponent, and
-- no number is read from an empty text.
pub record IsNumeric (N : DoubleText) : Type 0 where
  pub shown_numeral : (d : Double) → AllNumeral (N.shown d)
  pub shown17_numeral : (d : Double) → AllNumeral (N.shown17 d)
  pub fixed_numeral : (d : Double) → AllNumeral (N.fixed d)
  pub nothing_read : N.read_double "" ≡ none

-- The number is read back from its text.
abbrev pub Survives : DoubleText → (Double → String) → Double → Type 0
Survives N print d = N.read_double (print d) ≡ some (d, "")

abbrev pub OptionSurvives : DoubleText → Option Double → Type 0
OptionSurvives N none = Unit {0}
OptionSurvives N (some d) = Survives N N.fixed d

pub AllNumeral-Lacks : (sep : ℕ) (s : String) → is_numeral sep ≡ false → AllNumeral s → Lacks sep s
AllNumeral-Lacks sep String.[] h a = tt
AllNumeral-Lacks sep (String.◌∷◌ c s) h a = (ground arith, AllNumeral-Lacks sep s h a.1)

pub stod-Survives :
    (N : DoubleText) (print : Double → String) (d : Double)
    → Survives N print d
    → stod N (print d) ≡ some d
unfolding stod
stod-Survives N print d h = rw h refl

pub is_empty-false : (s : String) → s ≢ "" → is_empty s ≡ false
is_empty-false String.[] h = absurd (h refl)
is_empty-false (String.◌∷◌ c s) h = refl

pub Survives-ne_nil :
    (N : DoubleText) (print : Double → String) (d : Double)
    → IsNumeric N
    → Survives N print d
    → print d ≢ ""
Survives-ne_nil N print d n h e = absurd (cc (ap N.read_double e, n.nothing_read))

pub decode-encode_optional_double :
    (N : DoubleText) (o : Option Double)
    → IsNumeric N
    → OptionSurvives N o
    → decode_optional_double N (encode_optional_double N o) ≡ some o
unfolding decode_optional_double encode_optional_double
decode-encode_optional_double N none n h = refl
decode-encode_optional_double N (some d) n h =
    rw (is_empty-false (N.fixed d) (Survives-ne_nil N N.fixed d n h), stod-Survives N N.fixed d h)
      refl

pub encode_optional_double-Lacks :
    (N : DoubleText) (sep : ℕ) (o : Option Double)
    → IsNumeric N
    → is_numeral sep ≡ false
    → Lacks sep (encode_optional_double N o)
unfolding encode_optional_double
encode_optional_double-Lacks N sep none n h = tt
encode_optional_double-Lacks N sep (some d) n h =
    AllNumeral-Lacks sep (N.fixed d) h (n.fixed_numeral d)

pub AllNumeral-IsField : (s : String) → AllNumeral s → IsField s
AllNumeral-IsField s a = (AllNumeral-Lacks b'\t' s refl a, AllNumeral-Lacks b'\n' s refl a)

pub encode_optional_double-IsField :
    (N : DoubleText) (o : Option Double) → IsNumeric N → IsField (encode_optional_double N o)
encode_optional_double-IsField N o n =
    (encode_optional_double-Lacks N b'\t' o n refl, encode_optional_double-Lacks N b'\n' o n refl)
