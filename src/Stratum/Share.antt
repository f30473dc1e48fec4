-- ===== src/Stratum/Share.antt =====
-- internal/stratum/server.go: Job, validateShare, assembleBlockHex and the arithmetic of targets. Texts
-- are lists of bytes. Parameters: Go's crypto/sha256, scrypt.Key of golang.org/x/crypto, and `quotient`,
-- the whole part of the math/big quotient of a target and a difficulty, which is `none` where there is
-- none: at a difficulty of 0 the quotient is infinite, Int(nil) is nil and Cmp panics.
pub mod Valid
pub mod Assembly
use pipool.Base.{ℕ, ◌+◌, ◌-◌, ◌*◌, ◌/◌, ◌^◌, Bool, true, false, ◌==◌, if◌then◌else◌}
use pipool.Base.{List, [], ◌∷◌, ◌++◌, Option, none, some, leb, length, reverse}
use pipool.Base.Bytes.{le_bytes, base_value}
use pipool.Base.Options.{◌>>=◌}
use pipool.Go.Hex.{hex_encode, hex_decode}
use pipool.Go.ParseUint.{parse_uint}
use pipool.Go.Strings.{codes, str_eq}
use pipool.Merge.VarInt.{var_int}
use pipool.Stratum.Merkle.{dsha256}
use pipool.Stratum.Text.{reverse_byte_order, hex_reverse_bytes}

-- Without CreatedAt and the fields of merge mining.
pub record Job : Type 0 where
  pub id : List ℕ
  pub prev_hash : List ℕ
  pub coinbase_part1 : List ℕ
  pub coinbase_part2 : List ℕ
  pub merkle_branches : List (List ℕ)
  pub version : List ℕ
  pub nbits : List ℕ
  pub ntime : List ℕ
  pub clean_jobs : Bool
  pub height : ℕ
  pub target : List ℕ
  pub raw_tx_hexes : List (List ℕ)
  pub pow_algo : List ℕ

-- What the miner submits, with its extranonce1 and the effective version.
pub record Work : Type 0 where
  pub extranonce1 : List ℕ
  pub extranonce2 : List ℕ
  pub ntime : List ℕ
  pub version : List ℕ

-- The four results of assembleBlockHex where it succeeds.
pub record Block : Type 0 where
  pub block_hex : List ℕ
  pub block_hash : List ℕ
  pub header_bytes : List ℕ
  pub coinbase_tx_bytes : List ℕ

-- hex.DecodeString where its error ends the caller
unfoldable pub decode : List ℕ → Option (List ℕ)
decode s = if (hex_decode s).1 then some (hex_decode s).0 else none

-- `err != nil || len(b) != n`
unfoldable pub decode_exactly : ℕ → List ℕ → Option (List ℕ)
decode_exactly n s =
    if (hex_decode s).1
    then if length (hex_decode s).0 == n then some (hex_decode s).0 else none
    else none

-- strconv.ParseUint where its error ends the caller
unfoldable pub parsed : List ℕ → Option ℕ
parsed s = if (parse_uint s).1 then some (parse_uint s).0 else none

-- `b[0], b[3] = b[3], b[0]` and `b[1], b[2] = b[2], b[1]`, on four bytes
unfoldable pub swap_four : List ℕ → List ℕ
swap_four (a ∷ b ∷ c ∷ d ∷ []) = d ∷ c ∷ b ∷ a ∷ []
swap_four bs = bs

-- `none` at fewer than four bytes, where the answer of Go depends on the capacity of the slice.
unfoldable pub nbits_to_target : List ℕ → Option ℕ
nbits_to_target (exp ∷ a ∷ b ∷ c ∷ rest) =
    let mantissa = base_value 256 0 (a ∷ b ∷ c ∷ []) in
    some (if leb 3 exp then mantissa * 2 ^ (8 * (exp - 3)) else mantissa / 2 ^ (8 * (3 - exp)))
nbits_to_target _ = none

unfoldable pub diff1_target : List ℕ → ℕ
diff1_target algo =
    if str_eq algo (codes "sha256d")
    then 0xffff * 2 ^ 208
    else if str_eq algo (codes "scrypt")
    then 0xffff * 2 ^ 224
    else if str_eq algo (codes "scryptn")
    then 0xffff * 2 ^ 224
    else 0xffff * 2 ^ 208

-- The six fields of a header, in the places that the `copy` calls give them.
unfoldable pub header_of : List ℕ → List ℕ → List ℕ → List ℕ → List ℕ → List ℕ → List ℕ
header_of version prev_hash merkle_root ntime nbits nonce =
    version ++ (prev_hash ++ (merkle_root ++ (ntime ++ (nbits ++ nonce))))

-- The loop over `job.RawTxHexes`, with the block written so far.
unfoldable pub write_txs : List ℕ → List (List ℕ) → Option (List ℕ)
write_txs block [] = some block
write_txs block (tx ∷ txs) = do bytes ← decode tx; write_txs (block ++ bytes) txs

-- One turn of the loop over the nonces, with what the later turns give.
unfoldable pub try_nonce : ℕ → ℕ → List ℕ → Option ℕ → Bool × Bool × List ℕ → Bool × Bool × List ℕ
try_nonce share_target block_target nonce none rest = rest
try_nonce share_target block_target nonce (some hash) rest =
    if leb hash share_target then (true, leb hash block_target, nonce) else rest

unfoldable pub coinbase_hex : Job → Work → List ℕ
coinbase_hex job w = job.coinbase_part1 ++ (w.extranonce1 ++ (w.extranonce2 ++ job.coinbase_part2))

module _ (sha256 : List ℕ → List ℕ) where
  unfoldable pub fold_branches : List ℕ → List (List ℕ) → Option (List ℕ)
  fold_branches merkle_root [] = some merkle_root
  fold_branches merkle_root (branch ∷ rest) = do
    bytes ← decode branch
    fold_branches (dsha256 sha256 (merkle_root ++ bytes)) rest

  unfoldable pub assemble_block_hex : Job → Work → List ℕ → Option Block
  assemble_block_hex job w effective_nonce = do
    coinbase ← decode (coinbase_hex job w)
    merkle_root ← fold_branches (dsha256 sha256 coinbase) job.merkle_branches
    prev_hash ← decode_exactly 32 (reverse_byte_order job.prev_hash)
    ntime ← decode_exactly 4 w.ntime
    nbits ← decode_exactly 4 job.nbits
    nonce ← decode_exactly 4 effective_nonce
    let header =
        header_of (le_bytes 4 (parse_uint w.version).0) prev_hash merkle_root (swap_four ntime)
          (swap_four nbits) nonce
    block ←
        write_txs (header ++ (var_int (1 + length job.raw_tx_hexes) ++ coinbase)) job.raw_tx_hexes
    some (record {
      block_hex = hex_encode block;
      block_hash = hex_encode (reverse (dsha256 sha256 header));
      header_bytes = header;
      coinbase_tx_bytes = coinbase;
    })

  -- The header as a function of the nonce; `none` where validateShare returns before it has one.
  unfoldable pub share_header : Job → Work → Option (List ℕ → List ℕ)
  share_header job w = do
    coinbase ← decode (coinbase_hex job w)
    merkle_root ← fold_branches (dsha256 sha256 coinbase) job.merkle_branches
    version ← parsed w.version
    prev_hash ← decode_exactly 32 (reverse_byte_order job.prev_hash)
    ntime ← parsed w.ntime
    nbits ← parsed job.nbits
    some
        (header_of (le_bytes 4 version) prev_hash merkle_root (le_bytes 4 ntime) (le_bytes 4 nbits))

  module _ (scrypt : List ℕ → List ℕ → ℕ → ℕ → ℕ → ℕ → Option (List ℕ)) (algo : List ℕ) where
    -- `none` is an error of scrypt.Key.
    unfoldable pub hash_header : List ℕ → Option (List ℕ)
    hash_header header =
        if str_eq algo (codes "scrypt")
        then scrypt header header 1024 1 1 32
        else if str_eq algo (codes "scryptn")
        then scrypt header header 2048 1 1 32
        else some (dsha256 sha256 header)

    -- The hash of the header with a nonce, as a number.
    unfoldable pub hash_big : (List ℕ → List ℕ) → List ℕ → Option ℕ
    hash_big header nonce = do
      bytes ← decode_exactly 4 nonce
      raw ← hash_header (header bytes)
      some (base_value 256 0 (reverse raw))

    -- The loop over the two orientations of the nonce.
    unfoldable pub try_nonces :
        (List ℕ → List ℕ) → ℕ → ℕ → List ℕ → List (List ℕ) → Bool × Bool × List ℕ
    try_nonces header share_target block_target nonce [] = (false, false, nonce)
    try_nonces header share_target block_target nonce (n ∷ ns) =
        try_nonce share_target block_target n (hash_big header n)
          (try_nonces header share_target block_target nonce ns)

    -- The end of validateShare, with the header and the target of the share.
    unfoldable pub check_nonces :
        Job → List ℕ → Option ℕ → Option (List ℕ → List ℕ) → Option (Bool × Bool × List ℕ)
    check_nonces job nonce share_quotient none = some (false, false, nonce)
    check_nonces job nonce share_quotient (some header) = do
      share_target ← share_quotient
      block_target ← nbits_to_target (hex_decode job.nbits).0
      some
          (try_nonces header share_target block_target nonce (nonce ∷ hex_reverse_bytes nonce ∷ []))

    module _ {F : Type 0} (quotient : ℕ → F → Option ℕ) where
      -- Whether the share is valid, whether it is a block, and the nonce that made it so. `none` where
      -- nbits_to_target or the quotient has no answer.
      unfoldable pub validate_share : Job → Work → List ℕ → F → Option (Bool × Bool × List ℕ)
      validate_share job w nonce worker_diff =
          check_nonces job nonce (quotient (diff1_target algo) worker_diff) (share_header job w)
