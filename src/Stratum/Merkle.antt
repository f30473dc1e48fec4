-- ===== src/Stratum/Merkle.antt =====
-- internal/stratum/server.go: dsha256, merkleHash and buildMerkleBranch. Hashes are hex texts.
pub mod Root
use pipool.Base.{ℕ, zero, suc, List, [], ◌∷◌, ◌++◌, Option, none, some, length}
use pipool.Go.Hex.{hex_encode, hex_decode}
use pipool.Merge.Merkle.{pad_even}

module _ (sha256 : List ℕ → List ℕ) where
  unfoldable pub dsha256 : List ℕ → List ℕ
  dsha256 text = sha256 (sha256 text)

  unfoldable pub merkle_hash : List ℕ → List ℕ → List ℕ
  merkle_hash a b = hex_encode (dsha256 ((hex_decode a).0 ++ (hex_decode b).0))

  -- `for i := 0; i < len(remaining); i += 2`, on a list of even length
  unfoldable pub collapse : List (List ℕ) → List (List ℕ)
  collapse [] = []
  collapse (a ∷ []) = []
  collapse (a ∷ b ∷ rest) = merkle_hash a b ∷ collapse rest

  -- `for len(hashes) > 0`, with the branch so far; `none` means that the fuel ran out.
  unfoldable pub merkle_loop : ℕ → List (List ℕ) → List (List ℕ) → Option (List (List ℕ))
  merkle_loop zero hashes branch = none
  merkle_loop (suc fuel) [] branch = some branch
  merkle_loop (suc fuel) (h ∷ []) branch = some (branch ++ (h ∷ []))
  merkle_loop (suc fuel) (h ∷ r ∷ rest) branch =
      merkle_loop fuel (collapse (pad_even (r ∷ rest))) (branch ++ (h ∷ []))

  unfoldable pub build_merkle_branch : List (List ℕ) → Option (List (List ℕ))
  build_merkle_branch [] = some []
  build_merkle_branch (h ∷ rest) = merkle_loop (length (h ∷ rest)) (h ∷ rest) []
