-- ===== src/Fields/Integers.antt =====
-- `std::stoi`, `std::stoll`, and how `<<` and `std::to_string` print an integer.
use Prim.Native.String.{◌++◌ as ◌<>◌}
use mathlib.Core.Option
use Prim.Native.Char.{code}
use wall.Prelude.{
  Bool, Option, String, false, if◌then◌else◌, leb, ltb, none, refl, some, suc, true, zero, ℕ, ◌&&◌,
  ◌*◌, ◌+◌, ◌-◌, ◌==◌, ◌^◌, ◌||◌, ◌≡◌,
}
use wall.Prelude.Int.{negsuc, pos, ℤ}
use wall.Prelude.Text.{to_string}

abbrev pub is_digit : ℕ → Bool
is_digit c = leb b'0' c && leb c b'9'

-- `isspace`: the blank, and from the tab to the carriage return.
abbrev pub is_space : ℕ → Bool
is_space c = c == b' ' || leb b'\t' c && leb c b'\r'

unfoldable pub skip_space : String → String
skip_space String.[] = String.[]
skip_space (String.◌∷◌ c s) = if is_space (code c) then skip_space s else String.◌∷◌ c s

-- The number that the leading digits make, and the text behind them.
unfoldable pub read_digits : ℕ → String → ℕ × String
read_digits acc String.[] = (acc, String.[])
read_digits acc (String.◌∷◌ c s) =
    let rest = read_digits (acc * 10 + (code c - b'0')) s in
    if is_digit (code c) then rest else (acc, String.◌∷◌ c s)

abbrev pub negated : ℕ → ℤ
negated zero = pos 0
negated (suc n) = negsuc n

abbrev pub within : Bool → ℕ → ℕ × String → Option (ℤ × String)
within false bound (n, rest) = if ltb n bound then some (pos n, rest) else none
within true bound (n, rest) = if leb n bound then some (negated n, rest) else none

-- No digit at all is `std::invalid_argument`, a number out of range `std::out_of_range`: `none`.
abbrev pub magnitude : Bool → ℕ → String → Option (ℤ × String)
magnitude minus bound String.[] = none
magnitude minus bound (String.◌∷◌ c s) =
    if is_digit (code c) then within minus bound (read_digits 0 (String.◌∷◌ c s)) else none

abbrev pub signed : ℕ → String → Option (ℤ × String)
signed bound String.[] = none
signed bound (String.◌∷◌ c s) =
    if code c == b'-'
    then magnitude true bound s
    else if code c == b'+'
    then magnitude false bound s
    else magnitude false bound (String.◌∷◌ c s)

-- The number with the text that was not consumed, for a type that holds -bound and bound - 1.
unfoldable pub read_integer : ℕ → String → Option (ℤ × String)
unfolding skip_space read_digits
read_integer bound s = signed bound (skip_space s)

abbrev pub int32_bound : ℕ
int32_bound = 2 ^ 31

abbrev pub int64_bound : ℕ
int64_bound = 2 ^ 63

unfoldable pub stoi : String → Option ℤ
unfolding read_integer
stoi s = Option.map (λ r. r.0) (read_integer int32_bound s)

unfoldable pub stoll : String → Option ℤ
unfolding read_integer
stoll s = Option.map (λ r. r.0) (read_integer int64_bound s)

unfoldable pub print_integer : ℤ → String
unfolding to_string
print_integer (pos n) = to_string n
print_integer (negsuc n) = "-" <> to_string (suc n)

stoll_test : stoll " -42x" ≡ some (negsuc 41)
unfolding stoll
stoll_test = refl

stoi_range : stoi "2147483648" ≡ none
unfolding stoi
stoi_range = refl
