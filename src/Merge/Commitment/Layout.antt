-- ===== src/Merge/Commitment/Layout.antt =====
-- The bytes of the commitment, and the branches that lead to the root in it.
use pipool.Base.{
  ℕ, zero, suc, ◌%◌, ◌/◌, ◌^◌, ◌≡◌, ◌≢◌, refl, ap, sym, ◌∙◌, arith, some, inl, inr, Bool-cases,
}
use pipool.Base.{List, [], ◌∷◌, ◌++◌, length, take, drop, get_elem?, length-append, ◌==◌}
use pipool.Base.Bytes.{fixed, length-fixed, le_bytes, le_value, le_value-le_bytes}
use pipool.Base.Bytes.{take-append, drop-append}
use pipool.Go.Strings.{sort_strings}
use pipool.Merge.Merkle.{Hash, hash_pair, compute_aux_merkle_root, compute_aux_merkle_branch}
use pipool.Merge.Merkle.Branch.{parent, fold_branch, fold_branch-root}
use pipool.Merge.Commitment.{
  Symbol, Works, keys, work_hash, aux_hashes, magic_bytes, commitment_bytes,
}
use pipool.Merge.Commitment.{build_coinbase_commitment}

pub get_elem?-aux_hashes :
    (works : Works) (syms : List Symbol) (i : ℕ) {s : Symbol}
    → get_elem? syms i ≡ some s
    → get_elem? (aux_hashes works syms) i ≡ some (fixed 32 (work_hash works s))
unfolding aux_hashes
get_elem?-aux_hashes works [] i e = cc
get_elem?-aux_hashes works (s ∷ syms) zero {s = t} e =
    let same : s ≡ t = cc in ap (λ (u : Symbol). some (fixed 32 (work_hash works u))) same
get_elem?-aux_hashes works (s ∷ syms) (suc i) e = get_elem?-aux_hashes works syms i e

module _ (sha256 : List ℕ → List ℕ) (size : (bs : List ℕ) → length (sha256 bs) ≡ 32) where
  length-parent : (h : Hash) (idx : ℕ) (s : Hash) → length (parent sha256 h idx s) ≡ 32
  unfolding hash_pair
  length-parent h idx s = elim (Bool-cases (idx % 2 == 0)) [
    | inl e ↦ rw e (size (sha256 (h ++ s)))
    | inr e ↦ rw e (size (sha256 (s ++ h)))
  ]

  length-fold_branch :
      (h : Hash) (idx : ℕ) (branch : List Hash)
      → length h ≡ 32
      → length (fold_branch sha256 h idx branch) ≡ 32
  length-fold_branch h idx [] e = e
  length-fold_branch h idx (s ∷ branch) e =
      length-fold_branch (parent sha256 h idx s) (idx / 2) branch (length-parent h idx s)

commitment_parts :
    (root : Hash) (n : ℕ)
    → length root ≡ 32
    → (length (commitment_bytes root n) ≡ 44)
      × (take 4 (commitment_bytes root n) ≡ magic_bytes)
      × (take 32 (drop 4 (commitment_bytes root n)) ≡ root)
      × (le_value (take 4 (drop 36 (commitment_bytes root n))) ≡ n % 2 ^ 32)
unfolding commitment_bytes
commitment_parts root n h = (
  omega (arith, length-append root (le_bytes 4 (n % 2 ^ 32) ++ (0 ∷ 0 ∷ 0 ∷ 0 ∷ []))),
  refl,
  take-append root _ 32 h,
  ap (λ (bs : List ℕ). le_value (take 4 bs)) (drop-append root _ 32 h)
      ∙ le_value-le_bytes 4 (n % 2 ^ 32) (omega arith),
)

-- For auxiliary work on at least one chain, with 32-byte sha256 outputs, the commitment is 44 bytes:
-- the merged-mining marker, the root of computeAuxMerkleRoot, the number of chains (modulo 2 ^ 32) and four more bytes. For
-- the chain at place `i` of the returned symbol order, the branch of computeAuxMerkleBranch leads
-- from that chain's hash to that root.
pub build_coinbase_commitment-branch :
    (sha256 : List ℕ → List ℕ) (works : Works) (i : ℕ) {s : Symbol}
    → ((bs : List ℕ) → length (sha256 bs) ≡ 32)
    → works ≢ []
    → get_elem? (sort_strings (keys works)) i ≡ some s
    → (c : List ℕ) × (branch : List Hash) × (index : ℕ) × (build_coinbase_commitment sha256 works
        ≡ some (c, sort_strings (keys works)))
      × (compute_aux_merkle_branch sha256 (aux_hashes works (sort_strings (keys works))) i
          ≡ some (branch, index))
      × (compute_aux_merkle_root sha256 (aux_hashes works (sort_strings (keys works)))
          ≡ some (take 32 (drop 4 c)))
      × (fold_branch sha256 (fixed 32 (work_hash works s)) index branch ≡ take 32 (drop 4 c))
      × (length c ≡ 44)
      × (take 4 c ≡ magic_bytes)
      × (le_value (take 4 (drop 36 c)) ≡ length works % 2 ^ 32)
unfolding build_coinbase_commitment
build_coinbase_commitment-branch sha256 [] i size ne e = absurd (ne refl)
build_coinbase_commitment-branch sha256 (w ∷ ws) i {s} size ne e =
    let works : Works = w ∷ ws in
    let syms = sort_strings (keys works) in
    let (branch, index, eb, er) =
      fold_branch-root sha256 (aux_hashes works syms) i (get_elem?-aux_hashes works syms i e) in
    let leaf = fixed 32 (work_hash works s) in
    let root = fold_branch sha256 leaf index branch in
    let (len, magic, at_root, at_size) =
      commitment_parts root (length works)
        (length-fold_branch sha256 size leaf index branch (length-fixed 32 _)) in
    (
      commitment_bytes root (length works),
      branch,
      index,
      rw er,
      eb,
      er ∙ ap some (sym at_root),
      sym at_root,
      len,
      magic,
      at_size,
    )
