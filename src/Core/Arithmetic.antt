-- ===== src/Core/Arithmetic.antt =====
-- The products and quotients of doubles, which are rounded. The parts of the engine that multiply
-- or divide take such a value as an argument, and a theorem names the laws that it needs.
use wall.Prelude.Int.{ℤ}

pub record Arithmetic : Type 0 where
  pub times : ℤ → ℤ → ℤ
  pub over : ℤ → ℤ → ℤ
