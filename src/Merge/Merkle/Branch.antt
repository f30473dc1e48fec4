-- ===== src/Merge/Merkle/Branch.antt =====
-- The branch of computeAuxMerkleBranch leads from its leaf to the root of computeAuxMerkleRoot.
use pipool.Base.{ℕ, zero, suc, ◌/◌, ◌%◌, ◌<◌, ◌≤◌, ◌≡◌, refl, some, arith, ◌∙◌}
use pipool.Base.{List, [], ◌∷◌, ◌++◌, length, get_elem?, ◌==◌, if◌then◌else◌}
use pipool.Base.{ap, dec_lt, lt→ltb, append-nil, append_assoc, Bool-cases, inl, inr}
use pipool.Base.Bits.{bit_xor-one}
use Prim.Native.Nat.{bit_xor}
use pipool.Merge.Merkle.{Hash, pad_even, hash_pair, next_level, root_loop, branch_loop}
use pipool.Merge.Merkle.{add_sibling, compute_aux_merkle_root, compute_aux_merkle_branch}
use pipool.Merge.Merkle.Levels.{get_elem?-some, get_elem?-bound, get_elem?-pad_even}
use pipool.Merge.Merkle.Levels.{length-pad_even, length-next_level, get_elem?-pair_up}

module _ (sha256 : List ℕ → List ℕ) where
  -- The parent of a node at `idx` and of its sibling.
  abbrev pub parent : Hash → ℕ → Hash → Hash
  parent leaf idx s = if idx % 2 == 0 then hash_pair sha256 leaf s else hash_pair sha256 s leaf

  -- What a verifier of an AuxPoW proof computes from a leaf, its index and a branch.
  abbrev pub fold_branch : Hash → ℕ → List Hash → Hash
  fold_branch leaf idx [] = leaf
  fold_branch leaf idx (s ∷ rest) = fold_branch (parent leaf idx s) (idx / 2) rest

  -- The sibling that a round takes, and the parent that the next level holds.
  pub round_parent :
      (work : List Hash) (idx : ℕ) {leaf : Hash}
      → get_elem? work idx ≡ some leaf
      → (s : Hash) × (get_elem? (pad_even work) (bit_xor idx 1) ≡ some s)
        × (get_elem? (next_level sha256 work) (idx / 2) ≡ some (parent leaf idx s))
  unfolding next_level
  round_parent work idx h =
      let here = get_elem?-pad_even work idx h in
      let bound = get_elem?-bound work idx h in
      let (s, hs) =
        get_elem?-some (pad_even work) (bit_xor idx 1)
          (omega (arith, bit_xor-one idx, length-pad_even work)) in
      elim (Bool-cases (idx % 2 == 0)) [
        | inl even ↦
            let e : idx % 2 ≡ 0 = ground arith in
            let sib : bit_xor idx 1 ≡ suc idx = omega (arith, bit_xor-one idx) in
            (
              s,
              hs,
              rw even (
                  get_elem?-pair_up sha256 (pad_even work) idx (idx / 2) (omega arith) here
                    (rw sib at hs)),
            )
        | inr odd ↦
            let o : idx % 2 ≡ 1 = ground arith in
            let sib : suc (bit_xor idx 1) ≡ idx = omega (arith, bit_xor-one idx) in
            (
              s,
              hs,
              rw odd (
                  get_elem?-pair_up sha256 (pad_even work) (bit_xor idx 1) (idx / 2)
                    (omega (arith, bit_xor-one idx)) hs (rw sib here)),
            )
      ]

  pub root_loop_step :
      (fuel : ℕ) (work : List Hash)
      → 1 < length work
      → root_loop sha256 (suc fuel) work ≡ root_loop sha256 fuel (next_level sha256 work)
  unfolding root_loop
  root_loop_step fuel work m = ground arith

  pub branch_loop_step :
      (fuel : ℕ) (work : List Hash) (idx : ℕ) (acc : List Hash) (s : Hash)
      → 1 < length work
      → get_elem? (pad_even work) (bit_xor idx 1) ≡ some s
      → branch_loop sha256 (suc fuel) work idx acc
        ≡ branch_loop sha256 fuel (next_level sha256 work) (idx / 2) (acc ++ (s ∷ []))
  unfolding branch_loop add_sibling
  branch_loop_step fuel work idx acc s m h = rw (lt→ltb 1 (length work) m, h, add_sibling)

  pub loops_end :
      (fuel : ℕ) (work : List Hash) (idx : ℕ) (acc : List Hash) {leaf : Hash}
      → length work ≤ 1
      → get_elem? work idx ≡ some leaf
      → (branch_loop sha256 (suc fuel) work idx acc ≡ some acc)
        × (root_loop sha256 (suc fuel) work ≡ some leaf)
  unfolding root_loop branch_loop
  loops_end fuel [] idx acc m h = cc
  loops_end fuel (a ∷ []) zero acc m h = (refl, h)
  loops_end fuel (a ∷ []) (suc i) acc m h = cc
  loops_end fuel (a ∷ b ∷ r) i acc m h = absurd (omega arith)

  pub loops_agree :
      (fuel : ℕ) (work : List Hash) (idx : ℕ) (acc : List Hash) {leaf : Hash}
      → length work ≤ fuel
      → get_elem? work idx ≡ some leaf
      → (branch : List Hash) × (branch_loop sha256 fuel work idx acc ≡ some (acc ++ branch))
        × (root_loop sha256 fuel work ≡ some (fold_branch leaf idx branch))
  loops_agree zero work idx acc hf h = absurd (omega (arith, get_elem?-bound work idx h))
  loops_agree (suc fuel) work idx acc {leaf} hf h = elim (dec_lt 1 (length work)) [
    | yes m ↦
        let (s, hs, hp) = round_parent work idx h in
        let (branch, hb, hr) =
          loops_agree fuel (next_level sha256 work) (idx / 2) (acc ++ (s ∷ []))
            (omega (arith, length-next_level sha256 work)) hp in
        (
          s ∷ branch,
          branch_loop_step fuel work idx acc s m hs
              ∙ hb
              ∙ ap some (append_assoc acc (s ∷ []) branch),
          root_loop_step fuel work m ∙ hr,
        )
    | no n ↦
        let (hb, hr) = loops_end fuel work idx acc (omega arith) h in ([], rw append-nil hb, hr)
  ]

  -- For a chain that is among the hashes, both functions return (their fuel suffices), and the
  -- returned branch, folded from that chain's hash at the returned index, gives the returned root.
  pub fold_branch-root :
      (hashes : List Hash) (chain_index : ℕ) {leaf : Hash}
      → get_elem? hashes chain_index ≡ some leaf
      → (branch : List Hash) × (index : ℕ) × (compute_aux_merkle_branch sha256 hashes chain_index
          ≡ some (branch, index))
        × (compute_aux_merkle_root sha256 hashes ≡ some (fold_branch leaf index branch))
  unfolding compute_aux_merkle_branch compute_aux_merkle_root
  fold_branch-root [] i h = cc
  fold_branch-root (a ∷ []) zero h = ([], 0, refl, h)
  fold_branch-root (a ∷ []) (suc i) h = cc
  fold_branch-root (a ∷ b ∷ rest) i h =
      let hashes : List Hash = a ∷ b ∷ rest in
      let (branch, hb, hr) = loops_agree (length hashes) hashes i [] (omega arith) h in
      (branch, i, ground (arith, hb), hr)
