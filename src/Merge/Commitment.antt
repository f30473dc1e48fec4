-- ===== src/Merge/Commitment.antt =====
-- internal/merge/auxpow.go: AuxWork, buildAuxWork and BuildCoinbaseCommitment.
pub mod Layout
pub mod Order
use pipool.Base.{ℕ, suc, ◌%◌, ◌^◌, Bool, true, false, Option, none, some, map, reverse}
use pipool.Base.{List, [], ◌∷◌, ◌++◌, length, replicate, if◌then◌else◌}
use pipool.Base.Bytes.{le_bytes, fixed}
use pipool.Go.Hex.{hex_decode}
use pipool.Go.Strings.{str_eq, sort_strings}
use pipool.Merge.Merkle.{Hash, compute_aux_merkle_root}
use mathlib.Core.Option

abbrev pub Symbol : Type 0
Symbol = List ℕ

-- `Target` keeps the bytes that were decoded before an error, as the code does.
pub record AuxWork : Type 0 where
  pub symbol : Symbol
  pub chain_id : ℕ
  pub hash : List ℕ
  pub hash_hex : List ℕ
  pub target : List ℕ
  pub height : ℕ
  pub fetched_at : ℕ

-- The fields of the daemon's getauxblock answer that the code reads.
pub record AuxBlockResult : Type 0 where
  pub hash : List ℕ
  pub chain_id : ℕ
  pub target : List ℕ
  pub height : ℕ

-- Bytes of a displayed hash in internal order; zeros where the text is no hex.
unfoldable pub display_hash : List ℕ → Hash
display_hash text =
    let (decoded, fine) = hex_decode text in reverse (if fine then decoded else replicate 32 0)

-- `now` is time.Now().
unfoldable pub build_aux_work : Symbol → AuxBlockResult → ℕ → AuxWork
build_aux_work symbol ab now = record {
  symbol = symbol;
  chain_id = ab.chain_id;
  hash = display_hash ab.hash;
  hash_hex = ab.hash;
  target = (hex_decode ab.target).0;
  height = ab.height;
  fetched_at = now;
}

-- `map[string]*AuxWork`: the entries, in the order of one iteration, each key once.
abbrev pub Works : Type 0
Works = List (Symbol × AuxWork)

abbrev pub keys : Works → List Symbol
keys [] = []
keys ((sym, work) ∷ works) = sym ∷ keys works

-- `works[sym].Hash`; every `sym` that is looked up is a key.
unfoldable pub work_hash : Works → Symbol → List ℕ
work_hash [] sym = []
work_hash ((k, work) ∷ works) sym = if str_eq k sym then work.hash else work_hash works sym

unfoldable pub aux_hashes : Works → List Symbol → List Hash
aux_hashes works [] = []
aux_hashes works (sym ∷ syms) = fixed 32 (work_hash works sym) ∷ aux_hashes works syms

abbrev pub magic_bytes : List ℕ
magic_bytes = 0xfa ∷ 0xbe ∷ 0x6d ∷ 0x6d ∷ []

unfoldable pub commitment_bytes : Hash → ℕ → List ℕ
commitment_bytes root size =
    magic_bytes ++ (root ++ (le_bytes 4 (size % 2 ^ 32) ++ (0 ∷ 0 ∷ 0 ∷ 0 ∷ [])))

-- `none` stands for fuel that ran out in computeAuxMerkleRoot.
unfoldable pub build_coinbase_commitment : (List ℕ → List ℕ) → Works → Option (List ℕ × List Symbol)
build_coinbase_commitment sha256 [] = some ([], [])
build_coinbase_commitment sha256 (w ∷ ws) =
    let works : Works = w ∷ ws in
    let sorted_symbols = sort_strings (keys works) in
    Option.map (λ root. (commitment_bytes root (length works), sorted_symbols))
      (compute_aux_merkle_root sha256 (aux_hashes works sorted_symbols))
