-- ===== src/Publisher/Termination.antt =====
-- The loop of `parse_flat_json_object` in src/app/transaction_publisher_application.cpp ends.
use Prim.Native.Char.{Char, code}
use wall.Exchange.MarketAdapter.{emplaced_field}
use wall.Fields.{cut_at, push_first}
use wall.Fields.Integers.{is_space}
use wall.Prelude.{
  Bool, Bool-cases, Option, String, arith, inl, inr, none, some, suc, zero, ℕ, ◌<◌, ◌==◌, ◌≢◌, ◌≤◌,
}
use wall.Prelude.Dict.{Dict}
use wall.Prelude.Text.{text_length}
use wall.Publisher.{
  cut_before, ends_value, is_separator, is_short, keyed, read_colon, read_entry, read_fields,
  read_rest, read_value, skip_while, trimmed, with_entry,
}

skip_while-length : (p : ℕ → Bool) (s : String) → text_length (skip_while p s) ≤ text_length s
unfolding skip_while text_length
skip_while-length p String.[] = omega arith
skip_while-length p (String.◌∷◌ c s) = ground (arith, skip_while-length p s)

-- The text that is left is shorter.
abbrev Shortens : Option (String × String) → ℕ → Type 0
Shortens none n = Unit {0}
Shortens (some (a, b)) n = text_length b < n

abbrev Keeps : Option (String × String) → ℕ → Type 0
Keeps none n = Unit {0}
Keeps (some (a, b)) n = text_length b ≤ n

push_first-Shortens :
    (c : Char) (o : Option (String × String)) (n : ℕ)
    → Shortens o n
    → Shortens (push_first c o) (suc n)
push_first-Shortens c none n h = tt
push_first-Shortens c (some (a, b)) n h = omega arith

push_first-Keeps :
    (c : Char) (o : Option (String × String)) (n : ℕ) → Keeps o n → Keeps (push_first c o) (suc n)
push_first-Keeps c none n h = tt
push_first-Keeps c (some (a, b)) n h = omega arith

cut_at-Shortens : (sep : ℕ) (s : String) → Shortens (cut_at sep s) (text_length s)
unfolding cut_at text_length
cut_at-Shortens sep String.[] = tt
cut_at-Shortens sep (String.◌∷◌ c s) = elim (Bool-cases (code c == sep)) [
  | inl e ↦ rw e (omega arith)
  | inr e ↦ rw e (push_first-Shortens c (cut_at sep s) (text_length s) (cut_at-Shortens sep s))
]

cut_before-Keeps : (p : ℕ → Bool) (s : String) → Keeps (cut_before p s) (text_length s)
unfolding cut_before text_length
cut_before-Keeps p String.[] = tt
cut_before-Keeps p (String.◌∷◌ c s) = elim (Bool-cases (p (code c))) [
  | inl e ↦ rw e (omega arith)
  | inr e ↦ rw e (push_first-Keeps c (cut_before p s) (text_length s) (cut_before-Keeps p s))
]

trimmed-Keeps : (o : Option (String × String)) (n : ℕ) → Keeps o n → Keeps (trimmed o) n
trimmed-Keeps none n h = tt
trimmed-Keeps (some (a, b)) n h = h

Shortens-Keeps : (o : Option (String × String)) (n : ℕ) → Shortens o n → Keeps o (suc n)
Shortens-Keeps none n h = tt
Shortens-Keeps (some (a, b)) n h = omega arith

Keeps-le : (o : Option (String × String)) (m n : ℕ) → m ≤ n → Keeps o m → Keeps o n
Keeps-le none m n h k = tt
Keeps-le (some (a, b)) m n h k = omega arith

read_value-Keeps : (s : String) → Keeps (read_value s) (text_length s)
unfolding read_value text_length
read_value-Keeps String.[] = tt
read_value-Keeps (String.◌∷◌ c s) = elim (Bool-cases (code c == b'"')) [
  | inl e ↦ rw e (Shortens-Keeps (cut_at b'"' s) (text_length s) (cut_at-Shortens b'"' s))
  | inr e ↦ rw e (
      trimmed-Keeps (cut_before ends_value (String.◌∷◌ c s)) (suc (text_length s))
        (cut_before-Keeps ends_value (String.◌∷◌ c s)))
]

read_colon-Keeps : (s : String) → Keeps (read_colon s) (text_length s)
unfolding read_colon text_length
read_colon-Keeps String.[] = tt
read_colon-Keeps (String.◌∷◌ c s) = elim (Bool-cases (code c == b':')) [
  | inl e ↦ rw e (
      Keeps-le (read_value (skip_while is_space s)) (text_length (skip_while is_space s))
        (suc (text_length s)) (omega (arith, skip_while-length is_space s))
        (read_value-Keeps (skip_while is_space s)))
  | inr e ↦ rw e tt
]

abbrev Consumes : Option (String × String × String) → ℕ → Type 0
Consumes none n = Unit {0}
Consumes (some (k, v, r)) n = text_length r < n

keyed-Consumes :
    (k : String) (o : Option (String × String)) (m n : ℕ)
    → m < n
    → Keeps o m
    → Consumes (keyed k o) n
keyed-Consumes k none m n h g = tt
keyed-Consumes k (some (v, r)) m n h g = omega arith

read_rest-Consumes :
    (o : Option (String × String)) (n : ℕ) → Shortens o n → Consumes (read_rest o) n
read_rest-Consumes none n h = tt
read_rest-Consumes (some (k, r)) n h =
    keyed-Consumes k (read_colon (skip_while is_space r)) (text_length (skip_while is_space r)) n
      (omega (arith, skip_while-length is_space r)) (read_colon-Keeps (skip_while is_space r))

read_entry-Consumes : (s : String) → Consumes (read_entry s) (text_length s)
unfolding read_entry text_length
read_entry-Consumes String.[] = tt
read_entry-Consumes (String.◌∷◌ c s) = elim (Bool-cases (code c == b'"')) [
  | inl e ↦ rw e (
      Consumes-suc (read_rest (cut_at b'"' s)) (text_length s)
        (read_rest-Consumes (cut_at b'"' s) (text_length s) (cut_at-Shortens b'"' s)))
  | inr e ↦ rw e tt
]
  where
    Consumes-suc :
        (o : Option (String × String × String)) (n : ℕ) → Consumes o n → Consumes o (suc n)
    Consumes-suc none n h = tt
    Consumes-suc (some (k, v, r)) n h = omega arith

with_entry-ends :
    (o : Option (String × String × String)) (d : Dict String) (n : ℕ)
    (next : String → Dict String → Option (Option (Dict String)))
    → Consumes o n
    → ((r : String) (d' : Dict String) → text_length r < n → next r d' ≢ none)
    → with_entry o d next ≢ none
with_entry-ends none d n next h g = λ e. cc
with_entry-ends (some (k, v, r)) d n next h g = g r (emplaced_field k v d) h

-- The loop that reads the fields of an object ends, on any text, within as many rounds as the text has
-- characters and one more, which are the rounds that it is given.
pub read_fields_ends :
    (fuel : ℕ) (s : String) (d : Dict String) → text_length s < fuel → read_fields fuel s d ≢ none
unfolding read_fields
read_fields_ends zero s d h = absurd (omega arith)
read_fields_ends (suc fuel) s d h = elim (Bool-cases (is_short s)) [
  | inl e ↦ rw e (λ p. cc)
  | inr e ↦ elim (Bool-cases (is_short (skip_while is_separator s))) [
    | inl f ↦ rw (e, f) (λ p. cc)
    | inr f ↦
        rw (e, f)
          (with_entry-ends (read_entry (skip_while is_separator s)) d
            (text_length (skip_while is_separator s)) (read_fields fuel)
            (read_entry-Consumes (skip_while is_separator s))
            (λ r d' g.
              read_fields_ends fuel r d' (omega (arith, skip_while-length is_separator s))))
  ]
]
