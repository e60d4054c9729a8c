-- ===== src/Fields/Digits.antt =====
-- A printed integer is read back by `std::stoi` and `std::stoll`, if it fits.
use Prim.Native.String.{◌++◌ as ◌<>◌}
use mathlib.Core.Option
use Prim.Native.Char.{code}
use text.Mathlib.TextLemmas.{concat-ne-nil, cons-append, cons-ne-nil, nil-append}
use wall.Fields.Integers.{
  int32_bound, int64_bound, is_digit, is_space, magnitude, print_integer, read_digits, read_integer,
  skip_space, stoi, stoll, within,
}
use wall.Fields.Laws.{IsField, Lacks, Lacks-append, one_char}
use wall.Prelude.{
  Bool, Bool-cases, String, ap, arith, false, inl, inr, ltb, refl, some, suc, sym, true, zero, ℕ,
  ◌%◌, ◌*◌, ◌+◌, ◌-◌, ◌/◌, ◌<◌, ◌==◌, ◌^◌, ◌∙◌, ◌≡◌, ◌≢◌,
}
use wall.Prelude.Int.{negsuc, pos, ℤ}
use wall.Prelude.Text.{decimal, digit, one_digit, to_string}

value : ℕ → String → ℕ
value acc String.[] = acc
value acc (String.◌∷◌ c s) = value (acc * 10 + (code c - b'0')) s

abbrev pub AllDigits : String → Type 0
AllDigits String.[] = Unit {0}
AllDigits (String.◌∷◌ c s) = (is_digit (code c) ≡ true) × AllDigits s

read_digits-value :
    (acc : ℕ) (s : String) → AllDigits s → read_digits acc s ≡ (value acc s, String.[])
unfolding read_digits value
read_digits-value acc String.[] h = refl
read_digits-value acc (String.◌∷◌ c s) h =
    rw h.0 (read_digits-value (acc * 10 + (code c - b'0')) s h.1)

value-append : (acc : ℕ) (s t : String) → value acc (s <> t) ≡ value (value acc s) t
unfolding value
value-append acc String.[] t = rw nil-append refl
value-append acc (String.◌∷◌ c s) t = rw cons-append (value-append (acc * 10 + (code c - b'0')) s t)

AllDigits-append : (s t : String) → AllDigits s → AllDigits t → AllDigits (s <> t)
AllDigits-append String.[] t h g = rw nil-append g
AllDigits-append (String.◌∷◌ c s) t h g = rw cons-append (h.0, AllDigits-append s t h.1 g)

digit_code : (d : ℕ) → d < 10 → code (digit d) ≡ b'0' + d
unfolding digit
digit_code zero h = refl
digit_code (suc zero) h = refl
digit_code (suc (suc zero)) h = refl
digit_code (suc (suc (suc zero))) h = refl
digit_code (suc (suc (suc (suc zero)))) h = refl
digit_code (suc (suc (suc (suc (suc zero))))) h = refl
digit_code (suc (suc (suc (suc (suc (suc zero)))))) h = refl
digit_code (suc (suc (suc (suc (suc (suc (suc zero))))))) h = refl
digit_code (suc (suc (suc (suc (suc (suc (suc (suc zero)))))))) h = refl
digit_code (suc (suc (suc (suc (suc (suc (suc (suc (suc zero))))))))) h = refl
digit_code (suc (suc (suc (suc (suc (suc (suc (suc (suc (suc n)))))))))) h = absurd (omega arith)

one_digit-AllDigits : (d : ℕ) → d < 10 → AllDigits (one_digit d)
unfolding one_digit
one_digit-AllDigits d h = (ground (arith, digit_code d h), tt)

one_digit-value : (acc d : ℕ) → d < 10 → value acc (one_digit d) ≡ acc * 10 + d
unfolding one_digit value
one_digit-value acc d h = omega (arith, digit_code d h)

pow10 : ℕ → ℕ
pow10 zero = 10
pow10 (suc k) = 10 * pow10 k

pub decimal-AllDigits : (k n : ℕ) → AllDigits (decimal k n)
unfolding decimal
decimal-AllDigits zero n = one_digit-AllDigits (n % 10) (omega arith)
decimal-AllDigits (suc k) n = elim (Bool-cases (ltb n 10)) [
  | inl small ↦ rw small (one_digit-AllDigits n (ground arith))
  | inr big ↦ rw big (
      AllDigits-append (decimal k (n / 10)) (one_digit (n % 10)) (decimal-AllDigits k (n / 10))
        (one_digit-AllDigits (n % 10) (omega arith)))
]

decimal-value : (k n : ℕ) → n < pow10 k → value 0 (decimal k n) ≡ n
unfolding decimal pow10
decimal-value zero n h = rw (one_digit-value 0 (n % 10) (omega arith)) (omega arith)
decimal-value (suc k) n h = elim (Bool-cases (ltb n 10)) [
  | inl small ↦ rw (small, one_digit-value 0 n (ground arith)) (omega arith)
  | inr big ↦
      rw
        (
          big,
          value-append 0 (decimal k (n / 10)) (one_digit (n % 10)),
          decimal-value k (n / 10) (omega arith),
          one_digit-value (n / 10) (n % 10) (omega arith),
        )
        (omega arith)
]

to_string-read : (n : ℕ) → n < 10 ^ 20 → AllDigits (to_string n) × (value 0 (to_string n) ≡ n)
unfolding to_string
to_string-read n h = (decimal-AllDigits 19 n, decimal-value 19 n (unfold pow10 in omega arith))

decimal-ne_nil : (k n : ℕ) → decimal k n ≢ String.[]
unfolding decimal one_digit
decimal-ne_nil zero n = cons-ne-nil _ String.[]
decimal-ne_nil (suc k) n = elim (Bool-cases (ltb n 10)) [
  | inl small ↦ rw small (cons-ne-nil _ String.[])
  | inr big ↦ rw big (λ e. concat-ne-nil (digit (n % 10)) (decimal k (n / 10)) e)
]

to_string-ne_nil : (n : ℕ) → to_string n ≢ String.[]
unfolding to_string
to_string-ne_nil n = decimal-ne_nil 19 n

-- A text of digits is read as the number that it stands for.
magnitude-digits :
    (minus : Bool) (bound : ℕ) (t : String)
    → AllDigits t
    → t ≢ String.[]
    → magnitude minus bound t ≡ within minus bound (value 0 t, String.[])
magnitude-digits minus bound String.[] a ne = absurd (ne refl)
magnitude-digits minus bound (String.◌∷◌ c s) a ne =
    rw a.0 (ap (within minus bound) (read_digits-value 0 (String.◌∷◌ c s) a))

signed-digits :
    (bound : ℕ) (t : String)
    → AllDigits t
    → t ≢ String.[]
    → read_integer bound t ≡ magnitude false bound t
unfolding read_integer skip_space
signed-digits bound String.[] a ne = absurd (ne refl)
signed-digits bound (String.◌∷◌ c s) a ne =
    let space : is_space (code c) ≡ false = ground arith in
    let minus : (code c == b'-') ≡ false = ground arith in
    let plus : (code c == b'+') ≡ false = ground arith in rw (space, minus, plus) refl

read_integer_minus :
    (bound : ℕ) (t : String) → read_integer bound ("-" <> t) ≡ magnitude true bound t
unfolding read_integer skip_space
read_integer_minus bound t = rw (one_char "-" t) refl

-- An integer that fits the type is read back as it was printed.
abbrev pub Fits : ℕ → ℤ → Type 0
Fits bound (pos n) = n < bound
Fits bound (negsuc n) = n < bound

pub read_integer-print_integer :
    (bound : ℕ) (z : ℤ)
    → bound < 10 ^ 20
    → Fits bound z
    → read_integer bound (print_integer z) ≡ some (z, String.[])
unfolding print_integer
read_integer-print_integer bound (pos n) b h =
    let (a, v) = to_string-read n (omega arith) in
    signed-digits bound (to_string n) a (to_string-ne_nil n)
    ∙ magnitude-digits false bound (to_string n) a (to_string-ne_nil n)
    ∙ ap (λ x. within false bound (x, String.[])) v
    ∙ ground arith
read_integer-print_integer bound (negsuc n) b h =
    let (a, v) = to_string-read (suc n) (omega arith) in
    read_integer_minus bound (to_string (suc n))
    ∙ magnitude-digits true bound (to_string (suc n)) a (to_string-ne_nil (suc n))
    ∙ ap (λ x. within true bound (x, String.[])) v
    ∙ ground arith

pub stoi-print_integer : (z : ℤ) → Fits int32_bound z → stoi (print_integer z) ≡ some z
unfolding stoi
stoi-print_integer z h =
    ap (Option.map (λ r. r.0)) (read_integer-print_integer int32_bound z (omega arith) h)

pub stoll-print_integer : (z : ℤ) → Fits int64_bound z → stoll (print_integer z) ≡ some z
unfolding stoll
stoll-print_integer z h =
    ap (Option.map (λ r. r.0)) (read_integer-print_integer int64_bound z (omega arith) h)

-- A printed integer holds no character that is neither a digit nor the minus.
digits-Lacks : (sep : ℕ) (t : String) → is_digit sep ≡ false → AllDigits t → Lacks sep t
digits-Lacks sep String.[] h a = tt
digits-Lacks sep (String.◌∷◌ c s) h a = (ground arith, digits-Lacks sep s h a.1)

pub print_integer-Lacks :
    (sep : ℕ) (z : ℤ) → is_digit sep ≡ false → (b'-' == sep) ≡ false → Lacks sep (print_integer z)
unfolding print_integer to_string
print_integer-Lacks sep (pos n) h g = digits-Lacks sep (decimal 19 n) h (decimal-AllDigits 19 n)
print_integer-Lacks sep (negsuc n) h g =
    Lacks-append sep "-" (decimal 19 (suc n)) (g, tt)
      (digits-Lacks sep (decimal 19 (suc n)) h (decimal-AllDigits 19 (suc n)))

pub print_integer-ne_nil : (z : ℤ) → print_integer z ≢ String.[]
unfolding print_integer to_string
print_integer-ne_nil (pos n) e = decimal-ne_nil 19 n e
print_integer-ne_nil (negsuc n) e = cons-ne-nil _ _ (sym (one_char "-" (decimal 19 (suc n))) ∙ e)

pub print_integer-IsField : (z : ℤ) → IsField (print_integer z)
print_integer-IsField z =
    (print_integer-Lacks b'\t' z refl refl, print_integer-Lacks b'\n' z refl refl)
