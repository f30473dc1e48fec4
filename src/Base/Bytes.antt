-- ===== src/Base/Bytes.antt =====
-- Go byte slices: what `copy`, `binary.LittleEndian` and a reader of such bytes do.
use pipool.Base.Tests.{ltb, if◌then◌else◌}
use pipool.Base.Lists.{length, take, drop, replicate, length-append, length-replicate, length-take}
use Prim.Native.Nat.{ℕ, zero, suc, ◌+◌, ◌*◌, ◌/◌, ◌%◌, ◌^◌, ◌≤◌, ◌<◌}
use mathlib.Core.Path.{◌≡◌, refl, ap}
use mathlib.Core.Option.{Option, none, some}
use mathlib.Core.List.{List, [], ◌∷◌, ◌++◌}
use native.Mathlib.Omega.{arith}
use native.Mathlib.Nat.{pow-suc}

abbrev pub IsByte : ℕ → Type 0
IsByte b = b < 256

module _ {ℓ} {A : Type ℓ} where
  abbrev pub All {κ} : (A → Type κ) → List A → Type κ
  All P [] = Unit {κ}
  All P (x ∷ xs) = P x × All P xs

  pub All-append {κ} : (P : A → Type κ) (xs ys : List A) → All P xs → All P ys → All P (xs ++ ys)
  All-append P [] ys p q = q
  All-append P (x ∷ xs) ys (p, ps) q = (p, All-append P xs ys ps q)

  pub take-append : (xs ys : List A) (n : ℕ) → length xs ≡ n → take n (xs ++ ys) ≡ xs
  take-append [] ys zero e = refl
  take-append [] ys (suc n) e = absurd (omega arith)
  take-append (x ∷ xs) ys zero e = absurd (omega arith)
  take-append (x ∷ xs) ys (suc n) e = ap (λ t. x ∷ t) (take-append xs ys n (omega arith))

  pub drop-append : (xs ys : List A) (n : ℕ) → length xs ≡ n → drop n (xs ++ ys) ≡ ys
  drop-append [] ys zero e = refl
  drop-append [] ys (suc n) e = absurd (omega arith)
  drop-append (x ∷ xs) ys zero e = absurd (omega arith)
  drop-append (x ∷ xs) ys (suc n) e = drop-append xs ys n (omega arith)

  pub take_all : (xs : List A) (n : ℕ) → length xs ≤ n → take n xs ≡ xs
  take_all [] zero h = refl
  take_all [] (suc n) h = refl
  take_all (x ∷ xs) zero h = absurd (omega arith)
  take_all (x ∷ xs) (suc n) h = ap (λ t. x ∷ t) (take_all xs n (omega arith))

-- The `k` low bytes of `n`, lowest first: `byte(n), byte(n >> 8), …`.
abbrev pub le_bytes : ℕ → ℕ → List ℕ
le_bytes zero n = []
le_bytes (suc k) n = n % 256 ∷ le_bytes k (n / 256)

pub length-le_bytes : (k n : ℕ) → length (le_bytes k n) ≡ k
length-le_bytes zero n = refl
length-le_bytes (suc k) n = ap suc (length-le_bytes k (n / 256))

-- The number that bytes stand for, lowest first.
abbrev pub le_value : List ℕ → ℕ
le_value [] = 0
le_value (b ∷ bs) = b + 256 * le_value bs

pub le_value-le_bytes : (k n : ℕ) → n < 256 ^ k → le_value (le_bytes k n) ≡ n
le_value-le_bytes zero n h = omega arith
le_value-le_bytes (suc k) n h =
    omega (arith, le_value-le_bytes k (n / 256) (omega (arith, pow-suc 256 k)))

pub le_bytes-IsByte : (k n : ℕ) → All IsByte (le_bytes k n)
le_bytes-IsByte zero n = tt
le_bytes-IsByte (suc k) n = (omega arith, le_bytes-IsByte k (n / 256))

-- `var h [32]byte; copy(h[:], src)`: the first `k` bytes, zeros where `src` is shorter.
unfoldable pub fixed : ℕ → List ℕ → List ℕ
fixed k src = take k (src ++ replicate k 0)

pub length-fixed : (k : ℕ) (src : List ℕ) → length (fixed k src) ≡ k
unfolding fixed
length-fixed k src = omega (
  arith,
  length-take k (src ++ replicate k 0),
  length-append src (replicate k 0),
  length-replicate k (zero),
)

-- A slice of the full length is copied whole.
pub fixed_lem : (k : ℕ) (src : List ℕ) → length src ≡ k → fixed k src ≡ src
unfolding fixed
fixed_lem k src h = take-append src (replicate k 0) k h

-- The number that digits of `base` stand for, highest first, behind the number `acc`.
abbrev pub base_value : ℕ → ℕ → List ℕ → ℕ
base_value base acc [] = acc
base_value base acc (d ∷ ds) = base_value base (acc * base + d) ds

pub base_value-append :
    (base acc : ℕ) (xs ys : List ℕ)
    → base_value base acc (xs ++ ys) ≡ base_value base (base_value base acc xs) ys
base_value-append base acc [] ys = refl
base_value-append base acc (x ∷ xs) ys = base_value-append base (acc * base + x) xs ys

-- Reads `k` bytes as a number, with what follows.
unfoldable pub read_le : ℕ → List ℕ → Option (ℕ × List ℕ)
read_le k bs = if ltb (length bs) k then none else some (le_value (take k bs), drop k bs)

pub read_le-le_bytes :
    (k n : ℕ) (rest : List ℕ) → n < 256 ^ k → read_le k (le_bytes k n ++ rest) ≡ some (n, rest)
unfolding read_le
read_le-le_bytes k n rest h = ground (
  arith,
  length-append (le_bytes k n) rest,
  length-le_bytes k n,
  take-append (le_bytes k n) rest k,
  drop-append (le_bytes k n) rest k,
  le_value-le_bytes k n,
)

-- Byte strings one after the other.
abbrev pub concat : List (List ℕ) → List ℕ
concat [] = []
concat (bytes ∷ more) = bytes ++ concat more
