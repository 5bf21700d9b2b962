-- ===== src/Base/Double.antt =====
-- What the code does with a `number` that is no counter: IEEE arithmetic, comparisons and `Math`.
-- The type and its operations are not the program's; they are an instance argument of the models.
use Prim.Native.Nat.{ℕ}
use mathlib.Core.Bool.{Bool}
use msfslogger.Base.Int.{ℤ}

pub record Double (N : Type 0) : Type 0 where
  -- an integer literal
  pub lit : ℕ → N
  pub add : N → N → N
  pub sub : N → N → N
  pub mul : N → N → N
  pub div : N → N → N
  -- `%`, `**`
  pub rem : N → N → N
  pub pow : N → N → N
  -- `<`, `<=`, `===`: all false at NaN
  pub lt : N → N → Bool
  pub le : N → N → Bool
  pub eq : N → N → Bool
  pub infinity : N
  pub pi : N
  pub sin : N → N
  pub cos : N → N
  pub atan2 : N → N → N
  pub sqrt : N → N
  -- `Math.min`, `Math.max`
  pub min : N → N → N
  pub max : N → N → N
  -- `Math.round`
  pub round : N → N
  -- a whole number of milliseconds, as a `number`
  pub of_ms : ℤ → N
