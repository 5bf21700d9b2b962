-- ===== src/Base/Number.antt =====
-- What else the code does with a `number`, besides the arithmetic of `Double`: tests and texts.
use Prim.Native.Nat.{ℕ}
use Prim.Native.String.{String}
use mathlib.Core.Bool.{Bool}

pub record Number (N : Type 0) : Type 0 where
  -- Number.isFinite, Number.isInteger
  pub is_finite : N → Bool
  pub is_integer : N → Bool
  -- the natural number that a number with no sign and no fraction is
  pub whole : N → ℕ
  -- Math.floor, Math.abs, Math.asin, unary minus
  pub floor : N → N
  pub abs : N → N
  pub asin : N → N
  pub negate : N → N
  -- String(x), x.toFixed(digits)
  pub to_text : N → String
  pub to_fixed : ℕ → N → String
