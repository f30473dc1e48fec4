-- ===== src/Merge/Merkle/Depth.antt =====
-- How long the branch of computeAuxMerkleBranch is.
use pipool.Base.{ℕ, zero, suc, ◌+◌, ◌*◌, ◌/◌, ◌^◌, ◌<◌, ◌≤◌, ◌≡◌, refl, some, arith, ◌∙◌}
use pipool.Base.{List, [], ◌∷◌, ◌++◌, length, get_elem?, ap, dec_lt, append_assoc, append-nil, sym}
use native.Mathlib.Nat.{pow-suc}
use pipool.Merge.Merkle.{Hash, next_level, branch_loop, compute_aux_merkle_branch}
use pipool.Merge.Merkle.Levels.{get_elem?-bound, length-next_level}
use pipool.Merge.Merkle.Branch.{round_parent, branch_loop_step, loops_end}

-- Halving a level, rounded up, takes one from the exponent of the least power of 2 not below it.
halve :
    (n l : ℕ)
    → 1 < n
    → (n + 1) / 2 ≤ 2 ^ l
    → 2 ^ l < 2 * ((n + 1) / 2)
    → (n ≤ 2 ^ suc l) × (2 ^ suc l < 2 * n)
halve n zero m lo hi = omega arith
halve n (suc l) m lo hi = omega (arith, pow-suc 2 l, pow-suc 2 (suc l))

module _ (sha256 : List ℕ → List ℕ) where
  loop_depth :
      (fuel : ℕ) (work : List Hash) (idx : ℕ) (acc : List Hash) {leaf : Hash}
      → length work ≤ fuel
      → get_elem? work idx ≡ some leaf
      → (branch : List Hash) × (branch_loop sha256 fuel work idx acc ≡ some (acc ++ branch))
        × (length work ≤ 2 ^ length branch)
        × (2 ^ length branch < 2 * length work)
  loop_depth zero work idx acc hf h = absurd (omega (arith, get_elem?-bound work idx h))
  loop_depth (suc fuel) work idx acc {leaf} hf h = elim (dec_lt 1 (length work)) [
    | yes m ↦
        let (s, hs, hp) = round_parent sha256 work idx h in
        let len : length (next_level sha256 work) ≡ (length work + 1) / 2 =
          length-next_level sha256 work in
        let (branch, hb, lo, hi) =
          loop_depth fuel (next_level sha256 work) (idx / 2) (acc ++ (s ∷ [])) (omega arith) hp in
        let (lo', hi') =
          halve (length work) (length branch) m (omega (arith, lo, len)) (omega (arith, hi, len)) in
        (
          s ∷ branch,
          branch_loop_step sha256 fuel work idx acc s m hs
              ∙ hb
              ∙ ap some (append_assoc acc (s ∷ []) branch),
          lo',
          hi',
        )
    | no n ↦
        let (hb, hr) = loops_end sha256 fuel work idx acc (omega arith) h in
        let b = get_elem?-bound work idx h in
        ([], hb ∙ ap some (sym (append-nil acc)), omega arith, omega arith)
  ]

  -- For a chain that is among `n` hashes the branch has as many hashes as the least power of 2
  -- that is not below `n` has factors: `n ≤ 2 ^ length branch < 2 * n`.
  pub length-compute_aux_merkle_branch :
      (hashes : List Hash) (chain_index : ℕ) {leaf : Hash}
      → get_elem? hashes chain_index ≡ some leaf
      → (branch : List Hash) × (index : ℕ) × (compute_aux_merkle_branch sha256 hashes chain_index
          ≡ some (branch, index))
        × (length hashes ≤ 2 ^ length branch)
        × (2 ^ length branch < 2 * length hashes)
  unfolding compute_aux_merkle_branch
  length-compute_aux_merkle_branch [] i h = cc
  length-compute_aux_merkle_branch (a ∷ []) i h = ([], 0, refl, omega arith, omega arith)
  length-compute_aux_merkle_branch (a ∷ b ∷ rest) i h =
      let hashes : List Hash = a ∷ b ∷ rest in
      let (branch, hb, lo, hi) = loop_depth (length hashes) hashes i [] (omega arith) h in
      (branch, i, ground (arith, hb), lo, hi)
