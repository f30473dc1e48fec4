-- ===== src/Merge/Merkle/Levels.antt =====
-- One round of the loops of computeAuxMerkleRoot and computeAuxMerkleBranch.
use pipool.Base.{ℕ, zero, suc, ◌+◌, ◌-◌, ◌*◌, ◌/◌, ◌%◌, ◌<◌, ◌≡◌, refl, some, arith}
use pipool.Base.{List, [], ◌∷◌, ◌++◌, length, length-append, get_elem?, ◌==◌, ◌⊎◌, inl, inr}
use pipool.Base.{Bool-cases, ==_iff}
use pipool.Merge.Merkle.{Hash, pad_even, hash_pair, pair_up, next_level}

pub get_elem?-append :
    (xs ys : List Hash) (i : ℕ) {x : Hash}
    → get_elem? xs i ≡ some x
    → get_elem? (xs ++ ys) i ≡ some x
get_elem?-append [] ys i h = cc
get_elem?-append (x ∷ xs) ys zero h = h
get_elem?-append (x ∷ xs) ys (suc i) h = get_elem?-append xs ys i h

pub get_elem?-some :
    (xs : List Hash) (i : ℕ) → i < length xs → (x : Hash) × (get_elem? xs i ≡ some x)
get_elem?-some [] i h = absurd (omega arith)
get_elem?-some (x ∷ xs) zero h = (x, refl)
get_elem?-some (x ∷ xs) (suc i) h = get_elem?-some xs i (omega arith)

pub get_elem?-bound : (xs : List Hash) (i : ℕ) {x : Hash} → get_elem? xs i ≡ some x → i < length xs
get_elem?-bound [] i h = cc
get_elem?-bound (x ∷ xs) zero h = omega arith
get_elem?-bound (x ∷ xs) (suc i) h = omega (arith, get_elem?-bound xs i h)

-- A padded level is the level, with one more hash where its length was odd.
pub pad_even-cases :
    (work : List Hash)
    → ((length work % 2 ≡ 0) × (pad_even work ≡ work))
      ⊎ ((last : Hash) × (length work % 2 ≡ 1) × (pad_even work ≡ work ++ (last ∷ [])))
unfolding pad_even
pad_even-cases work = elim (Bool-cases (length work % 2 == 0)) [
  | inl e ↦ inl ((==_iff _ 0).0 e, rw e)
  | inr o ↦
      let odd : length work % 2 ≡ 1 = ground arith in
      let (last, h) = get_elem?-some work (length work - 1) (omega arith) in
      inr (last, odd, rw (o, h))
]

pub length-pad_even : (work : List Hash) → length (pad_even work) ≡ 2 * ((length work + 1) / 2)
length-pad_even work = elim (pad_even-cases work) [
  | inl (e, p) ↦ rw p (omega arith)
  | inr (last, o, p) ↦ rw (p, length-append) (omega arith)
]

pub get_elem?-pad_even :
    (work : List Hash) (i : ℕ) {x : Hash}
    → get_elem? work i ≡ some x
    → get_elem? (pad_even work) i ≡ some x
get_elem?-pad_even work i h = elim (pad_even-cases work) [
  | inl (e, p) ↦ rw p h
  | inr (last, o, p) ↦ rw p (get_elem?-append work (last ∷ []) i h)
]

module _ (sha256 : List ℕ → List ℕ) where
  length-pair_up : (xs : List Hash) → length (pair_up sha256 xs) ≡ length xs / 2
  unfolding pair_up
  length-pair_up [] = omega arith
  length-pair_up (a ∷ []) = omega arith
  length-pair_up (a ∷ b ∷ rest) = omega (arith, length-pair_up rest)

  pub length-next_level :
      (work : List Hash) → length (next_level sha256 work) ≡ (length work + 1) / 2
  unfolding next_level
  length-next_level work = omega (arith, length-pair_up (pad_even work), length-pad_even work)

  pub get_elem?-pair_up :
      (xs : List Hash) (i k : ℕ) {a b : Hash}
      → i ≡ 2 * k
      → get_elem? xs i ≡ some a
      → get_elem? xs (suc i) ≡ some b
      → get_elem? (pair_up sha256 xs) k ≡ some (hash_pair sha256 a b)
  unfolding pair_up
  get_elem?-pair_up [] i k e ha hb = cc
  get_elem?-pair_up (x ∷ []) i k e ha hb = cc
  get_elem?-pair_up (x ∷ y ∷ xs) zero zero e ha hb = cc
  get_elem?-pair_up (x ∷ y ∷ xs) zero (suc k) e ha hb = absurd (omega arith)
  get_elem?-pair_up (x ∷ y ∷ xs) (suc zero) k e ha hb = absurd (omega arith)
  get_elem?-pair_up (x ∷ y ∷ xs) (suc (suc i)) zero e ha hb = absurd (omega arith)
  get_elem?-pair_up (x ∷ y ∷ xs) (suc (suc i)) (suc k) e ha hb =
      get_elem?-pair_up xs i k (omega arith) ha hb
