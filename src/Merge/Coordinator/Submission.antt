-- ===== src/Merge/Coordinator/Submission.antt =====
-- What OnAuxBlockFound submits for a child chain fits the commitment in the parent's coinbase.
use pipool.Base.{ℕ, suc, ◌<◌, ◌≡◌, ◌≢◌, refl, ap, ap₂, ◌∙◌, arith, true, some, none}
use pipool.Base.{List, [], ◌∷◌, length, take, drop, get_elem?, if◌then◌else◌, ◌^◌}
use pipool.Base.{Bool-cases, inl, inr}
use pipool.Base.Bytes.{IsByte, All, fixed}
use pipool.Go.Hex.{hex_decode}
use pipool.Go.Strings.{str_eq, str_eq_iff, insert_sorted, sort_strings}
use pipool.Merge.Merkle.{Hash, compute_aux_merkle_root}
use pipool.Merge.Merkle.Branch.{fold_branch}
use pipool.Merge.AuxPow.{build_aux_pow_hex}
use pipool.Merge.AuxPow.Proof.{IsHash, IsProof, build_aux_pow_hex-IsProof}
use pipool.Merge.Commitment.{Symbol, AuxWork, Works, keys, work_hash, aux_hashes}
use pipool.Merge.Commitment.{build_coinbase_commitment}
use pipool.Merge.Commitment.Layout.{build_coinbase_commitment-branch, get_elem?-aux_hashes}
use pipool.Merge.Coordinator.{has_symbol, get_aux_work, AuxBlockInfo, all_hashes, index_of}
use pipool.Merge.Coordinator.{child_submission}

has_symbol-insert_sorted :
    (x : Symbol) (ys : List Symbol) (s : Symbol)
    → has_symbol (insert_sorted x ys) s ≡ (if str_eq x s then true else has_symbol ys s)
unfolding has_symbol insert_sorted
has_symbol-insert_sorted x [] s = refl
has_symbol-insert_sorted x (y ∷ ys) s = ground (arith, has_symbol-insert_sorted x ys s)

has_symbol_step :
    (y : Symbol) (ys : List Symbol) (s : Symbol)
    → (if str_eq y s then true else has_symbol ys s) ≡ has_symbol (y ∷ ys) s
unfolding has_symbol
has_symbol_step y ys s = refl

has_symbol-sort_strings :
    (ys : List Symbol) (s : Symbol) → has_symbol (sort_strings ys) s ≡ has_symbol ys s
unfolding sort_strings
has_symbol-sort_strings [] s = refl
has_symbol-sort_strings (y ∷ ys) s =
    has_symbol-insert_sorted y (sort_strings ys) s
    ∙ rw (has_symbol-sort_strings ys s) (has_symbol_step y ys s)

-- A symbol that is there has a first place.
index_of-some :
    (ys : List Symbol) (s : Symbol)
    → has_symbol ys s ≡ true
    → (i : ℕ) × (index_of ys s ≡ some i) × (get_elem? ys i ≡ some s)
unfolding has_symbol index_of
index_of-some [] s h = cc
index_of-some (y ∷ ys) s h = elim (Bool-cases (str_eq y s)) [
  | inl here ↦ (0, rw here, ap some ((str_eq_iff y s).0 here))
  | inr there ↦ let (i, e, g) = index_of-some ys s (rw there at h) in (suc i, rw (there, e), g)
]

has_symbol-keys :
    (works : Works) (s : Symbol) (w : AuxWork)
    → get_aux_work works s ≡ some w
    → (has_symbol (keys works) s ≡ true) × (work_hash works s ≡ w.hash)
unfolding get_aux_work has_symbol work_hash
has_symbol-keys [] s w e = cc
has_symbol-keys ((k, v) ∷ works) s w e = ground (arith, has_symbol-keys works s w)

get_aux_work-hash :
    (works : Works) (s : Symbol)
    → (elim (get_aux_work works s) [ none ↦ [] | some aw ↦ aw.hash ]) ≡ work_hash works s
unfolding get_aux_work work_hash
get_aux_work-hash [] s = refl
get_aux_work-hash ((k, v) ∷ works) s = ground (arith, get_aux_work-hash works s)

all_hashes-aux_hashes :
    (works : Works) (syms : List Symbol) → all_hashes works syms ≡ aux_hashes works syms
unfolding all_hashes aux_hashes
all_hashes-aux_hashes works [] = refl
all_hashes-aux_hashes works (s ∷ syms) =
    ap₂ (λ (h : Hash) hs. fixed 32 h ∷ hs) (get_aux_work-hash works s)
      (all_hashes-aux_hashes works syms)

length-aux_hashes :
    (works : Works) (syms : List Symbol) → length (aux_hashes works syms) ≡ length syms
unfolding aux_hashes
length-aux_hashes works [] = refl
length-aux_hashes works (s ∷ syms) = ap suc (length-aux_hashes works syms)

get_aux_work-nonempty :
    (works : Works) (s : Symbol) {w : AuxWork} → get_aux_work works s ≡ some w → works ≢ []
unfolding get_aux_work
get_aux_work-nonempty [] s e = cc
get_aux_work-nonempty (v ∷ works) s e = λ p. cc

-- What a submission for a child has to be: the hex form of the bytes of a proof, whose parts are
-- those of the solved block, and whose branch leads from the child's hash to the root in `c`.
pub record Fits (sha256 : List ℕ → List ℕ) (info : AuxBlockInfo) (w : AuxWork) (c : List ℕ)
    : Type 0 where
  pub hex : List ℕ
  pub bytes : List ℕ
  pub branch : List Hash
  pub index : ℕ
  pub decodes : hex_decode hex ≡ (bytes, true)
  pub proof : IsProof info.coinbase_tx info.merkle_branch info.header_bytes branch index bytes
  pub fits_in : index < 2 ^ 32
  pub leads : fold_branch sha256 (fixed 32 w.hash) index branch ≡ take 32 (drop 4 c)

-- A solved block whose symbol order is the one that its commitment was built with, whose bytes are
-- bytes, and which has fewer than 2 ^ 32 chains.
pub record IsSolved (info : AuxBlockInfo) : Type 0 where
  pub ordered : info.aux_sorted_syms ≡ sort_strings (keys info.aux_work_snap)
  pub tx_bytes : All IsByte info.coinbase_tx
  pub header_bytes : All IsByte info.header_bytes
  pub branch_hashes : All IsHash info.merkle_branch
  pub branch_length : length info.merkle_branch < 2 ^ 64
  pub aux_bytes : All IsHash (aux_hashes info.aux_work_snap info.aux_sorted_syms)
  pub chains : length info.aux_sorted_syms < 2 ^ 32

child_submission-some :
    (sha256 : List ℕ → List ℕ) (info : AuxBlockInfo) (child : Symbol) (w : AuxWork) (i : ℕ)
    → (hex : List ℕ) → get_aux_work info.aux_work_snap child ≡ some w
    → index_of info.aux_sorted_syms child ≡ some i
    → build_aux_pow_hex sha256 info.coinbase_tx info.merkle_branch info.header_bytes
        (aux_hashes info.aux_work_snap info.aux_sorted_syms)
        i
      ≡ some hex
    → child_submission sha256 info child ≡ some (w.hash_hex, some hex)
unfolding child_submission
child_submission-some sha256 info child w i hex e ei eh =
    let eh' = rw (← all_hashes-aux_hashes info.aux_work_snap info.aux_sorted_syms) at eh in
    rw (e, child_submission, ei, eh')

-- For a solved block whose symbol order is that of its commitment, whose parts are bytes and hashes,
-- and which has fewer than 2 ^ 32 chains and 2 ^ 64 hashes in the branch of its coinbase, and a child
-- whose work is in the snapshot, the callback submits the child's hash text and the hex form of
-- exactly these bytes: the coinbase transaction, its branch behind the number of hashes, four zeros,
-- an auxiliary branch behind the number of hashes, an index in four bytes, and the header. The
-- auxiliary branch and index lead from the child's hash to the root in the bytes that
-- BuildCoinbaseCommitment makes of the snapshot.
pub child_submission-Fits :
    (sha256 : List ℕ → List ℕ) (info : AuxBlockInfo) (child : Symbol) (w : AuxWork)
    → ((bs : List ℕ) → IsHash (sha256 bs))
    → IsSolved info
    → get_aux_work info.aux_work_snap child ≡ some w
    → (c : List ℕ) × (f : Fits sha256 info w c) × (build_coinbase_commitment sha256
          info.aux_work_snap
        ≡ some (c, info.aux_sorted_syms))
      × (child_submission sha256 info child ≡ some (w.hash_hex, some f.hex))
child_submission-Fits sha256 info child w out ok e =
    let (member, same) = has_symbol-keys info.aux_work_snap child w e in
    let (i, ei, gi) = index_of-some syms child (rw (ok.ordered, has_symbol-sort_strings) member) in
    let hashes = aux_hashes snap syms in
    let leaf : get_elem? hashes i ≡ some (fixed 32 w.hash) =
      rw same at (get_elem?-aux_hashes snap syms i gi) in
    let len : length hashes ≡ length syms = length-aux_hashes snap syms in
    let (branch, index, hex, bytes, eh, decoded, proof, small, root) =
      build_aux_pow_hex-IsProof sha256 info.coinbase_tx info.merkle_branch info.header_bytes hashes
        i out ok.tx_bytes ok.branch_hashes ok.header_bytes ok.aux_bytes ok.branch_length
        (omega arith) leaf in
    let (c, b, j, ec, eb, at_root, at_leaf, len_c, magic, size) =
      build_coinbase_commitment-branch sha256 snap i (λ bs. (out bs).0)
        (get_aux_work-nonempty snap child e) (rw ok.ordered at gi) in
    let at_root' : compute_aux_merkle_root sha256 hashes ≡ some (take 32 (drop 4 c)) =
      rw (← ok.ordered) at at_root in
    (
      c,
      record {
        hex = hex;
        bytes = bytes;
        branch = branch;
        index = index;
        decodes = decoded;
        proof = proof;
        fits_in = small;
        leads = cc;
      },
      rw (← ok.ordered) at ec,
      child_submission-some sha256 info child w i hex e ei eh,
    )
  where
    open info use {aux_work_snap as snap, aux_sorted_syms as syms}
