-- ===== src/Config/Parsed.antt =====
-- The numbers that `load_from_file` of src/config/config_loader.cpp has parsed when it ends.
use wall.Config.{AppConfig}
use wall.Fields.{◌>>=◌}
use wall.Prelude.{Option, ap, none, refl, some, value_or, ◌≡◌}
use wall.Prelude.Int.{ℤ}

-- The numbers that are parsed one after the other.
pub parsed :
    (o1 o2 o3 o4 o5 o6 o7 o8 o9 o10 : Option ℤ)
    (f : ℤ → ℤ → ℤ → ℤ → ℤ → ℤ → ℤ → ℤ → ℤ → ℤ → AppConfig) (c : AppConfig)
    → (do
      z1 ← o1
      z2 ← o2
      z3 ← o3
      z4 ← o4
      z5 ← o5
      z6 ← o6
      z7 ← o7
      z8 ← o8
      z9 ← o9
      z10 ← o10
      some (f z1 z2 z3 z4 z5 z6 z7 z8 z9 z10))
      ≡ some c
    → (z1 z2 z3 z4 z5 z6 z7 z8 z9 z10 : ℤ) × (o1 ≡ some z1)
      × (o2 ≡ some z2)
      × (o3 ≡ some z3)
      × (o4 ≡ some z4)
      × (o5 ≡ some z5)
      × (o6 ≡ some z6)
      × (o7 ≡ some z7)
      × (o8 ≡ some z8)
      × (o9 ≡ some z9)
      × (o10 ≡ some z10)
      × (f z1 z2 z3 z4 z5 z6 z7 z8 z9 z10 ≡ c)
parsed none o2 o3 o4 o5 o6 o7 o8 o9 o10 f c h = absurd (cc)
parsed (some z1) none o3 o4 o5 o6 o7 o8 o9 o10 f c h = absurd (cc)
parsed (some z1) (some z2) none o4 o5 o6 o7 o8 o9 o10 f c h = absurd (cc)
parsed (some z1) (some z2) (some z3) none o5 o6 o7 o8 o9 o10 f c h = absurd (cc)
parsed (some z1) (some z2) (some z3) (some z4) none o6 o7 o8 o9 o10 f c h = absurd (cc)
parsed (some z1) (some z2) (some z3) (some z4) (some z5) none o7 o8 o9 o10 f c h = absurd (cc)
parsed (some z1) (some z2) (some z3) (some z4) (some z5) (some z6) none o8 o9 o10 f c h =
    absurd (cc)
parsed (some z1) (some z2) (some z3) (some z4) (some z5) (some z6) (some z7) none o9 o10 f c h =
    absurd (cc)
parsed (some z1) (some z2) (some z3) (some z4) (some z5) (some z6) (some z7) (some z8) none o10 f c
      h =
    absurd (cc)
parsed (some z1) (some z2) (some z3) (some z4) (some z5) (some z6) (some z7) (some z8) (some z9)
      none f c h =
    absurd (cc)
parsed (some z1) (some z2) (some z3) (some z4) (some z5) (some z6) (some z7) (some z8) (some z9)
      (some z10) f c h =
    (
      z1,
      z2,
      z3,
      z4,
      z5,
      z6,
      z7,
      z8,
      z9,
      z10,
      refl,
      refl,
      refl,
      refl,
      refl,
      refl,
      refl,
      refl,
      refl,
      refl,
      ap (λ o. value_or o c) h,
    )
