-- ===== src/Merge/Merkle.antt =====
-- internal/merge/auxpow.go: computeAuxMerkleRoot and computeAuxMerkleBranch.
-- A 32-byte hash is the list of its bytes. `sha256` is Go's crypto/sha256, a parameter.
pub mod Levels
pub mod Branch
pub mod Depth
pub mod Elements
use pipool.Base.{ℕ, zero, suc, ◌-◌, ◌/◌, ◌%◌, Bool, true, false, Option, none, some}
use pipool.Base.{List, [], ◌∷◌, ◌++◌, ltb, leb, ◌==◌, if◌then◌else◌, length, get_elem?, replicate}
use Prim.Native.Nat.{bit_xor}
use mathlib.Core.Option

abbrev pub Hash : Type 0
Hash = List ℕ

-- `[32]byte{}`
abbrev pub zero_hash : Hash
zero_hash = replicate 32 0

-- `append(work, work[len(work)-1])` at an odd length. A read out of range, which Go answers with a
-- panic, leaves the level as it is: it happens at no odd length.
unfoldable pub pad_even : List Hash → List Hash
pad_even work =
    if length work % 2 == 0
    then work
    else elim (get_elem? work (length work - 1)) [ none ↦ work | some last ↦ work ++ (last ∷ []) ]

-- `if sibling < len(work) { branch = append(branch, work[sibling]) }`
pub add_sibling : List Hash → ℕ → List Hash → List Hash
add_sibling padded idx branch = elim (get_elem? padded (bit_xor idx 1)) [
  | none ↦ branch
  | some s ↦ branch ++ (s ∷ [])
]

module _ (sha256 : List ℕ → List ℕ) where
  -- `combined := append(a, b...)`, hashed twice
  unfoldable pub hash_pair : Hash → Hash → Hash
  hash_pair a b = sha256 (sha256 (a ++ b))

  -- `for i := 0; i < len(work); i += 2`, on a level of even length
  unfoldable pub pair_up : List Hash → List Hash
  pair_up [] = []
  pair_up (a ∷ []) = []
  pair_up (a ∷ b ∷ rest) = hash_pair a b ∷ pair_up rest

  unfoldable pub next_level : List Hash → List Hash
  next_level work = pair_up (pad_even work)

  -- `for len(hashes) > 1`; `none` means that the fuel ran out.
  pub root_loop : ℕ → List Hash → Option Hash
  root_loop zero hashes = none
  root_loop (suc fuel) hashes =
      let rest = root_loop fuel (next_level hashes) in
      if ltb 1 (length hashes) then rest else get_elem? hashes 0

  pub compute_aux_merkle_root : List Hash → Option Hash
  compute_aux_merkle_root [] = some zero_hash
  compute_aux_merkle_root (h ∷ []) = some h
  compute_aux_merkle_root (a ∷ b ∷ rest) = root_loop (length (a ∷ b ∷ rest)) (a ∷ b ∷ rest)

  pub branch_loop : ℕ → List Hash → ℕ → List Hash → Option (List Hash)
  branch_loop zero work idx branch = none
  branch_loop (suc fuel) work idx branch =
      let rest =
        branch_loop fuel (next_level work) (idx / 2) (add_sibling (pad_even work) idx branch) in
      if ltb 1 (length work) then rest else some branch

  -- The branch, and the index that goes with it.
  pub compute_aux_merkle_branch : List Hash → ℕ → Option (List Hash × ℕ)
  compute_aux_merkle_branch hashes chain_index =
      if leb (length hashes) 1
      then some ([], 0)
      else Option.map (λ branch. (branch, chain_index))
          (branch_loop (length hashes) hashes chain_index [])
