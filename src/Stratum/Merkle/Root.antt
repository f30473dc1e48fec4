-- ===== src/Stratum/Merkle/Root.antt =====
-- The branch of buildMerkleBranch leads from the coinbase to the Merkle root of the block.
use pipool.Base.{ℕ, zero, suc, ◌-◌, ◌%◌, ◌<◌, ◌≤◌, ◌≡◌, refl, sym, ap, arith}
use pipool.Base.{List, [], ◌∷◌, ◌++◌, map, some, length, length-map, get_elem?, ◌==◌}
use pipool.Base.{Bool-cases, Option-cases, inl, inr, append-nil, append_assoc}
use mathlib.Core.Option
use mathlib.Core.List.{map-append}
use pipool.Base.Bytes.{IsByte, All}
use pipool.Go.Hex.{hex_encode, hex_decode-hex_encode}
use pipool.Merge.Merkle.{Hash, pad_even, hash_pair, pair_up, next_level}
use pipool.Merge.Merkle.Levels.{length-next_level}
use pipool.Merge.Merkle.Elements.{All-pair_up, All-pad_even}
use pipool.Stratum.Merkle.{dsha256, merkle_hash, collapse, merkle_loop, build_merkle_branch}

module _ (sha256 : List ℕ → List ℕ) where
  -- The Merkle root of the hashes of a block's transactions: levels are padded by their last hash and
  -- paired up until one hash is left.
  pub data IsRoot : List Hash → Hash → Type 0 where
    leaf : {h : Hash} → IsRoot (h ∷ []) h
    level :
        {hs : List Hash} {r : Hash} → 1 < length hs → IsRoot (next_level sha256 hs) r → IsRoot hs r

  -- What a miner computes from the hash of its coinbase and the branch.
  abbrev pub climb : Hash → List Hash → Hash
  climb c [] = c
  climb c (b ∷ bs) = climb (hash_pair sha256 c b) bs

  abbrev pub AreBytes : Hash → Type 0
  AreBytes = All IsByte

  get_elem?-map :
      (hs : List Hash) (i : ℕ)
      → get_elem? (map hex_encode hs) i ≡ Option.map hex_encode (get_elem? hs i)
  unfolding Option.map
  get_elem?-map [] i = refl
  get_elem?-map (h ∷ hs) zero = refl
  get_elem?-map (h ∷ hs) (suc i) = get_elem?-map hs i

  pad_even-map : (hs : List Hash) → pad_even (map hex_encode hs) ≡ map hex_encode (pad_even hs)
  unfolding pad_even
  pad_even-map hs = elim (Bool-cases (length hs % 2 == 0)) [
    | inl even ↦ rw (length-map hs hex_encode, even) refl
    | inr odd ↦ elim (Option-cases (get_elem? hs (length hs - 1))) [
      | inl n ↦ rw (length-map hs hex_encode, odd, get_elem?-map, n, Option.map) refl
      | inr (last, n) ↦
          rw (length-map hs hex_encode, odd, get_elem?-map, n, Option.map)
            (sym (map-append hex_encode hs (last ∷ [])))
    ]
  ]

  pad_even-cons :
      (a b : Hash) (h : Hash) (rest : List Hash)
      → pad_even (a ∷ b ∷ h ∷ rest) ≡ a ∷ b ∷ pad_even (h ∷ rest)
  unfolding pad_even
  pad_even-cons a b h rest = ground arith

  collapse-map :
      (hs : List Hash)
      → All AreBytes hs
      → collapse sha256 (map hex_encode hs) ≡ map hex_encode (pair_up sha256 hs)
  unfolding collapse pair_up merkle_hash dsha256 hash_pair
  collapse-map [] h = refl
  collapse-map (a ∷ []) h = refl
  collapse-map (a ∷ b ∷ rest) (ha, (hb, h)) =
      rw (hex_decode-hex_encode a ha, hex_decode-hex_encode b hb, collapse-map rest h) refl

  next_level-cons :
      (c h r : Hash) (rest : List Hash)
      → next_level sha256 (c ∷ h ∷ r ∷ rest) ≡ hash_pair sha256 c h ∷ next_level sha256 (r ∷ rest)
  unfolding next_level pair_up
  next_level-cons c h r rest = rw (pad_even-cons c h r rest) refl

  next_level-pair : (c h : Hash) → next_level sha256 (c ∷ h ∷ []) ≡ hash_pair sha256 c h ∷ []
  unfolding next_level pair_up pad_even
  next_level-pair c h = refl

  module _ (out : (bs : List ℕ) → All IsByte (sha256 bs)) where
    next_level-map :
        (hs : List Hash)
        → All AreBytes hs
        → collapse sha256 (pad_even (map hex_encode hs)) ≡ map hex_encode (next_level sha256 hs)
    unfolding next_level hash_pair
    next_level-map hs h = rw (pad_even-map hs) (
        collapse-map (pad_even hs)
          (All-pad_even sha256 AreBytes (λ a b. out (sha256 (a ++ b))) hs h))

    next_level-AreBytes : (hs : List Hash) → All AreBytes (next_level sha256 hs)
    unfolding next_level hash_pair
    next_level-AreBytes hs =
        All-pair_up sha256 AreBytes (λ a b. out (sha256 (a ++ b))) (pad_even hs)

    -- The branch is of hashes too.
    merkle_loop-IsRoot :
        (fuel : ℕ) (hs : List Hash) (c : Hash) (acc : List (List ℕ))
        → 0 < fuel
        → length hs ≤ fuel
        → All AreBytes hs
        → (bs : List Hash) × merkle_loop sha256 fuel (map hex_encode hs) acc
            ≡ some (acc ++ map hex_encode bs)
          × All AreBytes bs
          × IsRoot (c ∷ hs) (climb c bs)
    unfolding merkle_loop
    merkle_loop-IsRoot zero hs c acc z l h = absurd (omega arith)
    merkle_loop-IsRoot (suc fuel) [] c acc z l h = ([], ap some (sym (append-nil acc)), tt, leaf)
    merkle_loop-IsRoot (suc fuel) (a ∷ []) c acc z l h =
        (a ∷ [], refl, h, level (omega arith) (rw (next_level-pair c a) leaf))
    merkle_loop-IsRoot (suc fuel) (a ∷ r ∷ rest) c acc z l (ha, h) =
        let (bs, e, hb, root) =
          merkle_loop-IsRoot fuel (next_level sha256 (r ∷ rest)) (hash_pair sha256 c a)
            (acc ++ (hex_encode a ∷ [])) (omega arith)
            (rw (length-next_level sha256 (r ∷ rest)) (omega arith))
            (next_level-AreBytes (r ∷ rest)) in
        (
          a ∷ bs,
          rw (next_level-map (r ∷ rest) h, e, append_assoc) refl,
          (ha, hb),
          level (omega arith) (rw (next_level-cons c a r rest) root),
        )

    -- Where sha256 gives bytes, buildMerkleBranch returns, from the transactions' hashes in hex, a branch
    -- of hashes in hex with which every miner comes from the hash of its coinbase to the Merkle root of
    -- the coinbase and the transactions.
    pub build_merkle_branch-IsRoot :
        (hs : List Hash) (c : Hash)
        → All AreBytes hs
        → (bs : List Hash) × build_merkle_branch sha256 (map hex_encode hs)
            ≡ some (map hex_encode bs)
          × All AreBytes bs
          × IsRoot (c ∷ hs) (climb c bs)
    unfolding build_merkle_branch
    build_merkle_branch-IsRoot [] c h = ([], refl, tt, leaf)
    build_merkle_branch-IsRoot (a ∷ hs) c h =
        rw (length-map hs hex_encode)
          (merkle_loop-IsRoot (suc (length hs)) (a ∷ hs) c [] (omega arith) (omega arith) h)
