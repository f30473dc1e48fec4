-- ===== src/Merge/AuxPow.antt =====
-- internal/merge/auxpow.go: BuildAuxPoWHex, the proof that `submitauxblock` wants.
pub mod Proof
use pipool.Base.{ℕ, zero, suc, List, [], ◌∷◌, ◌++◌, Option, none, some, length, take, drop}
use pipool.Base.Options.{◌>>=◌}
use pipool.Base.Bytes.{read_le, le_bytes}
use pipool.Go.Hex.{hex_encode}
use pipool.Merge.VarInt.{var_int, read_var_int}
use pipool.Merge.Merkle.{Hash, compute_aux_merkle_branch}
use mathlib.Core.Option

-- `for _, b := range branch { buf.Write(b) }`
unfoldable pub write_all : List (List ℕ) → List ℕ
write_all [] = []
write_all (b ∷ rest) = b ++ write_all rest

-- The bytes of `buf` for the branch and index of the auxiliary chain.
unfoldable pub aux_pow_bytes : List ℕ → List Hash → List ℕ → List Hash → ℕ → List ℕ
aux_pow_bytes coinbase_tx coinbase_branch parent_header aux_branch aux_index =
    coinbase_tx
    ++ (var_int (length coinbase_branch)
        ++ (write_all coinbase_branch
            ++ ((0 ∷ 0 ∷ 0 ∷ 0 ∷ [])
                ++ (var_int (length aux_branch)
                    ++ (write_all aux_branch ++ (le_bytes 4 aux_index ++ parent_header))))))

-- `none` stands for fuel that ran out in computeAuxMerkleBranch.
pub build_aux_pow_hex :
    (List ℕ → List ℕ) → List ℕ → List Hash → List ℕ → List Hash → ℕ → Option (List ℕ)
build_aux_pow_hex sha256 coinbase_tx coinbase_branch parent_header all_hashes chain_index =
    Option.map
      (λ found.
        hex_encode (aux_pow_bytes coinbase_tx coinbase_branch parent_header (found.0) (found.1)))
      (compute_aux_merkle_branch sha256 all_hashes chain_index)
