-- ===== src/Merge/AuxPow/Proof.antt =====
-- The bytes of the proof that BuildAuxPoWHex makes, and where its auxiliary branch leads.
use pipool.Base.{ℕ, zero, suc, ◌^◌, ◌<◌, ◌*◌, ◌≡◌, refl, ap, some, arith, true}
use pipool.Base.{List, [], ◌∷◌, ◌++◌, length, get_elem?}
use pipool.Base.Bytes.{concat, IsByte, All, All-append, le_bytes, le_bytes-IsByte}
use pipool.Go.Hex.{hex_encode, hex_decode, hex_decode-hex_encode}
use pipool.Merge.VarInt.{var_int, read_var_int, read_var_int-var_int, var_int-IsByte}
use pipool.Merge.Merkle.{Hash, hash_pair, compute_aux_merkle_branch, compute_aux_merkle_root}
use pipool.Merge.Merkle.Branch.{fold_branch, fold_branch-root}
use pipool.Merge.Merkle.Levels.{get_elem?-bound}
use pipool.Merge.Merkle.Depth.{length-compute_aux_merkle_branch}
use native.Mathlib.Nat.{pow-suc}
use pipool.Merge.Merkle.Elements.{All-compute_aux_merkle_branch}
use pipool.Merge.AuxPow.{write_all, aux_pow_bytes, build_aux_pow_hex}

abbrev pub IsHash : Hash → Type 0
IsHash h = (length h ≡ 32) × All IsByte h

write_all-concat : (hs : List Hash) → write_all hs ≡ concat hs
unfolding write_all
write_all-concat [] = refl
write_all-concat (b ∷ hs) = ap (λ rest. b ++ rest) (write_all-concat hs)

write_all-IsByte : (hs : List Hash) → All IsHash hs → All IsByte (write_all hs)
unfolding write_all
write_all-IsByte [] h = tt
write_all-IsByte (b ∷ hs) ((hl, hb), ph) =
    All-append IsByte b (write_all hs) hb (write_all-IsByte hs ph)

aux_pow_bytes-IsByte :
    (tx : List ℕ) (cb : List Hash) (header : List ℕ) (ab : List Hash) (ai : ℕ)
    → All IsByte tx
    → All IsHash cb
    → All IsByte header
    → All IsHash ab
    → All IsByte (aux_pow_bytes tx cb header ab ai)
unfolding aux_pow_bytes
aux_pow_bytes-IsByte tx cb header ab ai ht hcb hh hab = both tx _ ht (
    both (var_int (length cb)) _ (var_int-IsByte (length cb)) (
      both (write_all cb) _ (write_all-IsByte cb hcb) (
        both (0 ∷ 0 ∷ 0 ∷ 0 ∷ []) _ (omega arith) (
          both (var_int (length ab)) _ (var_int-IsByte (length ab)) (
            both (write_all ab) _ (write_all-IsByte ab hab)
              (both (le_bytes 4 ai) _ (le_bytes-IsByte 4 ai) hh))))))
  where
    both : (xs ys : List ℕ) → All IsByte xs → All IsByte ys → All IsByte (xs ++ ys)
    both xs ys p q = All-append IsByte xs ys p q

lt-pow_two : (k : ℕ) → k < 2 ^ k
lt-pow_two zero = omega arith
lt-pow_two (suc k) = omega (arith, lt-pow_two k, pow-suc 2 k)

branch_short :
    (sha256 : List ℕ → List ℕ) (hashes : List Hash) (i : ℕ) {leaf : Hash} {branch : List Hash}
    → {index : ℕ} → get_elem? hashes i ≡ some leaf
    → compute_aux_merkle_branch sha256 hashes i ≡ some (branch, index)
    → length branch < 2 * length hashes
branch_short sha256 hashes i {leaf} {branch} {index} e eb =
    let (found, at, ef, lo, hi) = length-compute_aux_merkle_branch sha256 hashes i e in
    let same : found ≡ branch = cc in omega (arith, lt-pow_two (length found), ap length same)

-- The bytes of a proof: the coinbase transaction, its branch behind the number of its hashes, its
-- index 0, the auxiliary branch behind the number of its hashes, the auxiliary index in four bytes,
-- and the header, with numbers that a node reads as those of the hashes.
pub record IsProof (tx : List ℕ) (coinbase_branch : List Hash) (header : List ℕ)
    (aux_branch : List Hash) (aux_index : ℕ) (bytes : List ℕ) : Type 0 where
  pub coinbase_count : List ℕ
  pub aux_count : List ℕ
  pub coinbase_counted :
      (rest : List ℕ) → read_var_int (coinbase_count ++ rest) ≡ some (length coinbase_branch, rest)
  pub aux_counted :
      (rest : List ℕ) → read_var_int (aux_count ++ rest) ≡ some (length aux_branch, rest)
  pub written :
      bytes
      ≡ tx
        ++ (coinbase_count
            ++ (concat coinbase_branch
                ++ ((0 ∷ 0 ∷ 0 ∷ 0 ∷ [])
                    ++ (aux_count ++ (concat aux_branch ++ (le_bytes 4 aux_index ++ header))))))

aux_pow_bytes-IsProof :
    (tx : List ℕ) (cb : List Hash) (header : List ℕ) (ab : List Hash) (ai : ℕ)
    → length cb < 2 ^ 64
    → length ab < 2 ^ 64
    → IsProof tx cb header ab ai (aux_pow_bytes tx cb header ab ai)
unfolding aux_pow_bytes
aux_pow_bytes-IsProof tx cb header ab ai lcb lab = record {
  coinbase_count = var_int (length cb);
  aux_count = var_int (length ab);
  coinbase_counted = λ rest. read_var_int-var_int (length cb) rest lcb;
  aux_counted = λ rest. read_var_int-var_int (length ab) rest lab;
  written = rw (write_all-concat cb, write_all-concat ab) refl;
}

-- For a chain that is among the hashes, `BuildAuxPoWHex` returns the hex form of a proof with an
-- auxiliary branch and index that lead from the chain's hash to the root of all the hashes.
pub build_aux_pow_hex-IsProof :
    (sha256 : List ℕ → List ℕ) (tx : List ℕ) (cb : List Hash) (header : List ℕ)
    → (hashes : List Hash) (chain_index : ℕ) {leaf : Hash} → ((bs : List ℕ) → IsHash (sha256 bs))
    → All IsByte tx
    → All IsHash cb
    → All IsByte header
    → All IsHash hashes
    → length cb < 2 ^ 64
    → length hashes < 2 ^ 32
    → get_elem? hashes chain_index ≡ some leaf
    → (branch : List Hash) × (index : ℕ) × (hex : List ℕ) × (bytes : List ℕ) × (build_aux_pow_hex
          sha256 tx cb header hashes chain_index
        ≡ some hex)
      × (hex_decode hex ≡ (bytes, true))
      × IsProof tx cb header branch index bytes
      × (index < 2 ^ 32)
      × (compute_aux_merkle_root sha256 hashes ≡ some (fold_branch sha256 leaf index branch))
unfolding build_aux_pow_hex hash_pair
build_aux_pow_hex-IsProof sha256 tx cb header hashes i {leaf} out ht hcb hh hs lcb lh e =
    let (branch, index, eb, er) = fold_branch-root sha256 hashes i e in
    let (hab, le) =
      All-compute_aux_merkle_branch sha256 IsHash (λ a b. out (sha256 (a ++ b))) hashes i hs eb in
    let short = branch_short sha256 hashes i e eb in
    let bytes = aux_pow_bytes tx cb header branch index in
    (
      branch,
      index,
      hex_encode bytes,
      bytes,
      rw eb,
      hex_decode-hex_encode bytes (aux_pow_bytes-IsByte tx cb header branch index ht hcb hh hab),
      aux_pow_bytes-IsProof tx cb header branch index lcb (omega arith),
      omega (arith, le, get_elem?-bound hashes i e),
      er,
    )
