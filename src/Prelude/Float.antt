-- ===== src/Prelude/Float.antt =====
-- `float64` as a parameter: a type with Go's comparisons and the literals that the code writes.
-- Nothing is computed with floats here but tests, so NaN is covered: all comparisons with it fail.
use Prim.Native.Nat.{ℕ}
use mathlib.Core.Bool.{Bool, true, false, ◌||◌}
use mathlib.Core.Option.{Option, none, some}
use radio_container.Prelude.Tests.{ltb, ◌==◌}

pub record Float (F : Type 0) : Type 0 where
  -- `a < b`
  pub lt : F → F → Bool
  -- `a == b`
  pub eq : F → F → Bool
  -- an integer literal
  pub of_ℕ : ℕ → F
  -- neither NaN nor an infinity, as encoding/json asks of a number
  pub finite : F → Bool

module _ {F : Type 0} ⦃o : Float F⦄ where
  abbrev pub flt : F → F → Bool
  flt = o.lt

  abbrev pub feq : F → F → Bool
  feq = o.eq

  -- `a <= b` holds where `a < b` or `a == b` does, and so never for NaN.
  abbrev pub fle : F → F → Bool
  fle a b = o.lt a b || o.eq a b

  abbrev pub lit : ℕ → F
  lit = o.of_ℕ

  abbrev pub is_finite : F → Bool
  is_finite = o.finite

-- A concrete instance: the naturals and NaN.
abbrev pub Sample : Type 0
Sample = Option ℕ

abbrev sample_lt : Sample → Sample → Bool
sample_lt (some a) (some b) = ltb a b
sample_lt _ _ = false

abbrev sample_eq : Sample → Sample → Bool
sample_eq (some a) (some b) = a == b
sample_eq _ _ = false

abbrev sample_finite : Sample → Bool
sample_finite (some a) = true
sample_finite none = false

instance abbrev pub sample_float : Float Sample
sample_float = record { lt = sample_lt; eq = sample_eq; of_ℕ = some; finite = sample_finite }
