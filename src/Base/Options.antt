-- ===== src/Base/Options.antt =====
-- Options in do blocks: `b ← o` ends the block with `none` where `o` is `none`.
use mathlib.Core.Path.{◌≡◌, refl, subst}
use mathlib.Core.Option.{Option, none, some}

infixl 5 ◌>>=◌
abbrev pub ◌>>=◌ {ℓ κ} : {A : Type ℓ} {B : Type κ} → Option A → (A → Option B) → Option B
none >>= f = none
some a >>= f = f a

-- A block that gives a result has passed its first line.
module _ {ℓ κ} {A : Type ℓ} {B : Type κ} where
  pub >>=-some :
      (m : Option A) (f : A → Option B) {b : B}
      → (m >>= f) ≡ some b
      → (a : A) × m ≡ some a × f a ≡ some b
  >>=-some none f e = cc
  >>=-some (some a) f e = (a, refl, e)

-- What holds of one result holds of the other.
module _ {ℓ κ} {A : Type ℓ} where
  pub by_some : (P : A → Type κ) {a b : A} → some a ≡ some b → P a → P b
  by_some P {a} {b} e p = let same : a ≡ b = cc in subst P same p
