-- ===== src/Go/Float.antt =====
-- float64, as far as the code uses it. Nothing is assumed of its arithmetic.
use pipool.Base.{ℕ, Bool, List}

-- `lit n d` is the literal of n / 10 ^ d, and `format d x` is strconv.FormatFloat(x, 'f', d, 64).
pub record Float64 (F : Type 0) : Type 0 where
  pub lit : ℕ → ℕ → F
  pub add : F → F → F
  pub sub : F → F → F
  pub mul : F → F → F
  pub div : F → F → F
  pub round : F → F
  pub lt : F → F → Bool
  pub le : F → F → Bool
  pub eq : F → F → Bool
  pub format : ℕ → F → List ℕ
