-- ===== src/Rpc/Base58.antt =====
-- internal/rpc/base58.go. Text is its bytes: no byte of a multi-byte character is in the alphabet.
pub mod Decode
pub mod Scripts
use pipool.Base.{ℕ, zero, suc, ◌+◌, ◌-◌, ◌*◌, ◌/◌, ◌%◌, Bool, true, false, ◌&&◌, not}
use pipool.Base.{List, [], ◌∷◌, ◌++◌, Option, none, some, length, take, drop, replicate, ltb, ◌==◌}
use pipool.Base.{if◌then◌else◌}
use pipool.Base.Bytes.{fixed}
use pipool.Go.Strings.{codes, index_byte}
use pipool.Rpc.Result.{Result, ok, err, ◌>>=◌, Error, invalid_character, too_short}
use pipool.Rpc.Result.{invalid_checksum, payload_too_short, bad_length}

abbrev pub b58_alphabet : List ℕ
b58_alphabet = codes "123456789ABCDEFGHJKLMNPQRSTUVWXYZabcdefghijkmnopqrstuvwxyz"

-- The loop over the characters, with `n` the number read so far.
unfoldable pub b58_loop : List ℕ → ℕ → Result ℕ
b58_loop [] n = ok n
b58_loop (c ∷ s) n = elim (index_byte b58_alphabet c) [
  | none ↦ err invalid_character
  | some idx ↦ b58_loop s (n * 58 + idx)
]

-- `for leading < len(s) && s[leading] == '1'`
unfoldable pub leading : ℕ → List ℕ → ℕ
leading c [] = 0
leading c (b ∷ s) = if b == c then suc (leading c s) else 0

-- big.Int.Bytes, highest byte first, for a number below 256 ^ fuel.
unfoldable pub be_bytes : ℕ → ℕ → List ℕ
be_bytes zero n = []
be_bytes (suc fuel) n =
    let high = be_bytes fuel (n / 256) in if n == 0 then [] else high ++ (n % 256 ∷ [])

-- `len(s)` base-58 digits stand for a number below 256 ^ len(s).
unfoldable pub b58_decode : List ℕ → Result (List ℕ)
b58_decode s = do n ← b58_loop s 0; ok (replicate (leading b'1' s) 0 ++ be_bytes (length s) n)

-- `for i := 0; i < 4; i++ { if h2[i] != checksum[i] … }`
unfoldable pub same_bytes : ℕ → List ℕ → List ℕ → Bool
same_bytes zero h c = true
same_bytes (suc n) [] c = false
same_bytes (suc n) (a ∷ h) [] = false
same_bytes (suc n) (a ∷ h) (b ∷ c) = a == b && same_bytes n h c

-- OP_DUP OP_HASH160 <20 bytes> OP_EQUALVERIFY OP_CHECKSIG
unfoldable pub p2pkh_script : List ℕ → List ℕ
p2pkh_script hash20 = 0x76 ∷ 0xa9 ∷ 0x14 ∷ (fixed 20 hash20 ++ (0x88 ∷ 0xac ∷ []))

module _ (sha256 : List ℕ → List ℕ) where
  -- The checks after decoding. `len(data) < 21` never holds here, since `len(decoded) >= 25`.
  unfoldable pub b58_check : List ℕ → Result (ℕ × List ℕ)
  b58_check decoded =
      if ltb (length decoded) 25
      then err too_short
      else let payload = take (length decoded - 4) decoded in
        let checksum = drop (length decoded - 4) decoded in
        if not (same_bytes 4 (sha256 (sha256 payload)) checksum)
        then err invalid_checksum
        else if ltb (length payload) 21
        then err payload_too_short
        else elim payload [
          | [] ↦ err payload_too_short
          | version ∷ rest ↦ ok (version, take 20 rest)
        ]

  unfoldable pub b58_check_decode : List ℕ → Result (ℕ × List ℕ)
  b58_check_decode addr = do decoded ← b58_decode addr; b58_check decoded

  unfoldable pub build_p2pkh_script : List ℕ → Result (List ℕ)
  build_p2pkh_script addr = do
    (version, hash20) ← b58_check_decode addr
    if length hash20 == 20 then ok (p2pkh_script hash20) else err bad_length
