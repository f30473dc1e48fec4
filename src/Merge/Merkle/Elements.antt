-- ===== src/Merge/Merkle/Elements.antt =====
-- What holds of every chain hash and of every sha256 output holds of the whole branch.
use pipool.Base.{
  Option, ℕ, zero, suc, ◌/◌, ◌≡◌, some, inl, inr, Option-cases, Bool-cases, ltb, arith,
}
use mathlib.Core.Path.{subst}
use pipool.Base.{◌%◌, ◌-◌, ◌==◌, ◌≤◌, List, [], ◌∷◌, ◌++◌, length, get_elem?, leb}
use Prim.Native.Nat.{bit_xor}
use pipool.Base.Bytes.{All, All-append}
use pipool.Merge.Merkle.{Hash, pad_even, hash_pair, pair_up, next_level, branch_loop, add_sibling}
use pipool.Merge.Merkle.{compute_aux_merkle_branch}

module _ (sha256 : List ℕ → List ℕ) (P : Hash → Type 0)
    (out : (a b : Hash) → P (hash_pair sha256 a b)) where
  All-get_elem? : (xs : List Hash) (i : ℕ) {x : Hash} → All P xs → get_elem? xs i ≡ some x → P x
  All-get_elem? [] i h e = cc
  All-get_elem? (y ∷ xs) zero {x} (p, ps) e = let eq : y ≡ x = cc in subst P eq p
  All-get_elem? (y ∷ xs) (suc i) (p, ps) e = All-get_elem? xs i ps e

  All-append_left : (xs ys : List Hash) → All P (xs ++ ys) → All P xs
  All-append_left [] ys h = tt
  All-append_left (x ∷ xs) ys (p, ps) = (p, All-append_left xs ys ps)

  pub All-pair_up : (xs : List Hash) → All P (pair_up sha256 xs)
  unfolding pair_up
  All-pair_up [] = tt
  All-pair_up (a ∷ []) = tt
  All-pair_up (a ∷ b ∷ rest) = (out a b, All-pair_up rest)

  pub All-pad_even : (work : List Hash) → All P work → All P (pad_even work)
  unfolding pad_even
  All-pad_even work h = elim (Bool-cases (length work % 2 == 0)) [
    | inl e ↦ rw e h
    | inr o ↦ elim (Option-cases (get_elem? work (length work - 1))) [
      | inl n ↦ rw (o, n) h
      | inr (last, e) ↦ rw (o, e) (All-append P work (last ∷ []) h (All-get_elem? work _ h e, tt))
    ]
  ]

  All-add_sibling :
      (padded : List Hash) (idx : ℕ) (branch : List Hash)
      → All P padded
      → All P branch
      → All P (add_sibling padded idx branch)
  unfolding add_sibling
  All-add_sibling padded idx branch hp hb = elim (Option-cases (get_elem? padded (bit_xor idx 1))) [
    | inl n ↦ rw (n, add_sibling) hb
    | inr (s, e) ↦
        rw (e, add_sibling) (All-append P branch (s ∷ []) hb (All-get_elem? padded _ hp e, tt))
  ]

  All-branch_loop :
      (fuel : ℕ) (work : List Hash) (idx : ℕ) (acc : List Hash) {branch : List Hash}
      → All P work
      → All P acc
      → branch_loop sha256 fuel work idx acc ≡ some branch
      → All P branch
  unfolding branch_loop next_level
  All-branch_loop zero work idx acc hw ha e = cc
  All-branch_loop (suc fuel) work idx acc {branch} hw ha e =
      elim (Bool-cases (ltb 1 (length work))) [
        | inl more ↦
            All-branch_loop fuel (next_level sha256 work) (idx / 2)
              (add_sibling (pad_even work) idx acc) (All-pair_up (pad_even work))
              (All-add_sibling (pad_even work) idx acc (All-pad_even work hw) ha) (rw more at e)
        | inr done ↦
            let e' : some acc ≡ some branch = rw done at e in
            let eq : acc ≡ branch = cc in subst (All P) eq ha
      ]

  pub All-compute_aux_merkle_branch :
      (hashes : List Hash) (chain_index : ℕ) {branch : List Hash} {index : ℕ}
      → All P hashes
      → compute_aux_merkle_branch sha256 hashes chain_index ≡ some (branch, index)
      → All P branch × (index ≤ chain_index)
  unfolding compute_aux_merkle_branch
  All-compute_aux_merkle_branch hashes i {branch} {index} h e =
      elim (Bool-cases (leb (length hashes) 1)) [
        | inl one ↦
            let e' : ◌≡◌ {A = Option (List Hash × ℕ)} (some ([], 0)) (some (branch, index)) =
              rw one at e in
            let b : [] ≡ branch = cc in let z : 0 ≡ index = cc in (subst (All P) b tt, omega arith)
        | inr many ↦ elim (Option-cases (branch_loop sha256 (length hashes) hashes i [])) [
          | inl n ↦ cc (rw (many, n) at e)
          | inr (found, eb) ↦
              let e' : ◌≡◌ {A = Option (List Hash × ℕ)} (some (found, i)) (some (branch, index)) =
                rw (many, eb) at e in
              let b : found ≡ branch = cc in
              let z : i ≡ index = cc in
              (subst (All P) b (All-branch_loop (length hashes) hashes i [] h tt eb), omega arith)
        ]
      ]
