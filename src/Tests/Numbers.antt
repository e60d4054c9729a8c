-- ===== src/Tests/Numbers.antt =====
-- A way to print and read doubles that keeps each of them: whole numbers of 1e-12.
use Prim.Native.String.{◌++◌ as ◌<>◌}
use text.Mathlib.TextLemmas.{cons-append, nil-append}
use wall.Core.{Double}
use wall.Fields.Digits.{AllDigits, decimal-AllDigits}
use wall.Fields.Doubles.{AllNumeral, DoubleText, IsNumeric, Survives}
use wall.Fields.Integers.{int64_bound, print_integer, read_integer}
use wall.Prelude.{Option, String, ite, none, refl, some, suc}
use wall.Prelude.Int.{negsuc, pos, ℤ}
use wall.Prelude.Text.{dec_str, decimal, to_string}
use wall.Samples.{units}

abbrev pub scientific : Double → String
scientific d = print_integer d <> "e-12"

abbrev without_exponent : Option (ℤ × String) → Option (Double × String)
without_exponent none = none
without_exponent (some (d, rest)) = some (d, ite (dec_str rest "e-12") "" rest)

abbrev pub scientific_text : DoubleText
scientific_text = record {
  shown = scientific;
  shown17 = scientific;
  fixed = scientific;
  read_double = λ s. without_exponent (read_integer int64_bound s);
}

AllNumeral-append : (s t : String) → AllNumeral s → AllNumeral t → AllNumeral (s <> t)
AllNumeral-append String.[] t h g = rw nil-append g
AllNumeral-append (String.◌∷◌ c s) t h g = rw cons-append (h.0, AllNumeral-append s t h.1 g)

AllDigits-AllNumeral : (s : String) → AllDigits s → AllNumeral s
AllDigits-AllNumeral String.[] h = tt
AllDigits-AllNumeral (String.◌∷◌ c s) h = (rw h.0 refl, AllDigits-AllNumeral s h.1)

print_integer-AllNumeral : (z : ℤ) → AllNumeral (print_integer z)
unfolding print_integer to_string
print_integer-AllNumeral (pos n) = AllDigits-AllNumeral (decimal 19 n) (decimal-AllDigits 19 n)
print_integer-AllNumeral (negsuc n) =
    AllNumeral-append "-" (decimal 19 (suc n)) (refl, tt)
      (AllDigits-AllNumeral (decimal 19 (suc n)) (decimal-AllDigits 19 (suc n)))

scientific-AllNumeral : (d : Double) → AllNumeral (scientific d)
scientific-AllNumeral d =
    AllNumeral-append (print_integer d) "e-12" (print_integer-AllNumeral d)
      (refl, (refl, (refl, (refl, tt))))

pub scientific-IsNumeric : IsNumeric scientific_text
unfolding read_integer
scientific-IsNumeric = record {
  shown_numeral = scientific-AllNumeral;
  shown17_numeral = scientific-AllNumeral;
  fixed_numeral = scientific-AllNumeral;
  nothing_read = refl;
}

pub five-Survives : Survives scientific_text scientific (units 5)
unfolding read_integer print_integer dec_str
five-Survives = refl

pub hundred-Survives : Survives scientific_text scientific (units 100)
unfolding read_integer print_integer dec_str
hundred-Survives = refl

pub zero-Survives : Survives scientific_text scientific (pos 0)
unfolding read_integer print_integer dec_str
zero-Survives = refl
