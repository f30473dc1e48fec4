-- ===== src/Stratum/Tests.antt =====
-- The mining server at work on small inputs.
use pipool.Base.{ℕ, ◌==◌, if◌then◌else◌, ◌/◌, ◌≡◌, ◌≤◌, ◌↔◌, ◌⊎◌, refl, arith, true, false, map}
use pipool.Base.{List, [], ◌∷◌, length, replicate, reverse, Option, none, some, leb}
use pipool.Base.Bytes.{All, IsByte, le_bytes, base_value}
use pipool.Go.Hex.{hex_encode, hex_decode, hex_digit, from_hex_char}
use pipool.Go.ParseUint.{parse_uint, parse_digits}
use pipool.Go.Strings.{codes, str_eq}
use pipool.Merge.Merkle.{Hash}
use pipool.Toy.{toy_sha256, toy_sha256-bytes}
use pipool.Stratum.Merkle.{build_merkle_branch, dsha256}
use pipool.Stratum.Merkle.Root.{IsRoot, climb, build_merkle_branch-IsRoot}
use pipool.Stratum.Text.{reverse_chunks, reverse_byte_order, hex_reverse_bytes}
use pipool.Stratum.Share.{
  Job, Work, Block, validate_share, assemble_block_hex, hash_header, nbits_to_target, diff1_target,
  share_header, header_of, check_nonces, decode, coinbase_hex, fold_branches, parsed,
  decode_exactly, try_nonces, try_nonce, hash_big,
}
use pipool.Stratum.Share.Valid.{Meets, validate_share_iff}
use pipool.Stratum.Share.Assembly.{IsSerialized, validate_share-assemble_block_hex}

-- A stand-in for crypto/sha256 with small outputs, and one for scrypt.Key.
abbrev small_sha256 : List ℕ → List ℕ
small_sha256 bs = le_bytes 32 (length bs)

abbrev no_scrypt : List ℕ → List ℕ → ℕ → ℕ → ℕ → ℕ → Option (List ℕ)
no_scrypt password salt n r p len = none

-- None at a difficulty of 0.
abbrev whole_quotient : ℕ → ℕ → Option ℕ
whole_quotient target diff = if diff == 0 then none else some (target / diff)

abbrev template : Job
template = record {
  id = codes "7";
  prev_hash = replicate 64 b'0';
  coinbase_part1 = codes "0100";
  coinbase_part2 = codes "00";
  merkle_branches = codes "ab" ∷ [];
  version = codes "20000000";
  nbits = codes "1d00ffff";
  ntime = codes "5f5e1000";
  clean_jobs = false;
  height = 100;
  target = [];
  raw_tx_hexes = codes "00ff" ∷ [];
  pow_algo = [];
}

abbrev work : Work
work = record {
  extranonce1 = codes "aabbccdd";
  extranonce2 = codes "00000001";
  ntime = codes "5f5e1001";
  version = codes "20000000";
}

build_merkle_branch-IsRoot_example :
    (bs : List Hash) × build_merkle_branch toy_sha256
        (map hex_encode ((1 ∷ []) ∷ (2 ∷ []) ∷ (3 ∷ []) ∷ []))
      ≡ some (map hex_encode bs)
    × All (All IsByte) bs
    × IsRoot toy_sha256
        ((9 ∷ []) ∷ (1 ∷ []) ∷ (2 ∷ []) ∷ (3 ∷ []) ∷ [])
        (climb toy_sha256 (9 ∷ []) bs)
build_merkle_branch-IsRoot_example =
    build_merkle_branch-IsRoot toy_sha256 (λ bs. (toy_sha256-bytes bs).1)
      ((1 ∷ []) ∷ (2 ∷ []) ∷ (3 ∷ []) ∷ []) (9 ∷ [])
      ((omega arith, tt), ((omega arith, tt), ((omega arith, tt), tt)))

reverse_byte_order_00112233 : reverse_byte_order (codes "00112233445566") ≡ codes "33221100665544"
unfolding reverse_byte_order reverse_chunks
reverse_byte_order_00112233 = refl

share_ok :
    validate_share small_sha256 no_scrypt
      (codes "sha256d")
      whole_quotient
      template
      work
      (codes "01020304")
      1
    ≡ some (true, true, codes "01020304")
unfolding validate_share check_nonces share_header decode hex_decode coinbase_hex from_hex_char
    fold_branches parsed parse_uint parse_digits decode_exactly reverse_byte_order reverse_chunks
    nbits_to_target try_nonces try_nonce hash_big hash_header dsha256 diff1_target header_of
    hex_reverse_bytes hex_encode hex_digit str_eq
share_ok = refl

validate_share-assemble_block_hex_example :
    (b : Block) × (raw : List ℕ) × (share_target : ℕ) × (target : ℕ) × assemble_block_hex
        small_sha256 template work
        (codes "01020304")
      ≡ some b
    × IsSerialized template work ((0 ∷ 255 ∷ []) ∷ []) b
    × hash_header small_sha256 no_scrypt (codes "sha256d") b.header_bytes ≡ some raw
    × nbits_to_target (hex_decode template.nbits).0 ≡ some target
    × whole_quotient (diff1_target (codes "sha256d")) 1 ≡ some share_target
    × base_value 256 0 (reverse raw) ≤ share_target
    × leb (base_value 256 0 (reverse raw)) target ≡ true
unfolding hex_decode from_hex_char
validate_share-assemble_block_hex_example =
    validate_share-assemble_block_hex small_sha256 no_scrypt (codes "sha256d") whole_quotient
      template work (codes "01020304") 1 ((0 ∷ 255 ∷ []) ∷ []) refl refl (omega arith) (refl, tt)
      share_ok

abbrev header : List ℕ → List ℕ
header =
    header_of (le_bytes 4 0x20000000) (replicate 32 0) (le_bytes 32 32) (le_bytes 4 0x5f5e1001)
      (le_bytes 4 0x1d00ffff)

header_ok : share_header small_sha256 template work ≡ some header
unfolding share_header decode hex_decode coinbase_hex from_hex_char fold_branches parsed parse_uint
    parse_digits decode_exactly reverse_byte_order reverse_chunks dsha256
header_ok = refl

validate_share_iff_example :
    true ≡ true
    ↔ Meets small_sha256 no_scrypt
        (codes "sha256d")
        header
        (diff1_target (codes "sha256d") / 1)
        (codes "01020304")
      ⊎ Meets small_sha256 no_scrypt
          (codes "sha256d")
          header
          (diff1_target (codes "sha256d") / 1)
          (hex_reverse_bytes (codes "01020304"))
validate_share_iff_example =
    validate_share_iff small_sha256 no_scrypt (codes "sha256d") whole_quotient template work
      (codes "01020304") 1 header_ok refl share_ok
