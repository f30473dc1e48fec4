-- ===== src/Rpc/CashAddr.antt =====
-- internal/rpc/cashaddr.go, and the choice between the address formats in bech32.go. Addresses are
-- ASCII text, as bytes.
pub mod Payload
pub mod Scripts
use pipool.Base.{ℕ, zero, suc, ◌+◌, ◌-◌, ◌*◌, ◌/◌, ◌%◌, ◌^◌, Bool, true, false, ◌||◌, map}
use pipool.Base.{List, [], ◌∷◌, ◌++◌, Option, none, some, length, take, drop, ltb, ◌==◌}
use pipool.Base.{if◌then◌else◌}
use pipool.Base.Bytes.{fixed}
use Prim.Native.Nat.{bit_xor}
use pipool.Go.Strings.{codes, index_byte, to_lower, trim_space, has_prefix}
use pipool.Rpc.Result.{Result, ok, err, panicked, ◌>>=◌, invalid_checksum, empty_payload}
use pipool.Rpc.Result.{unsupported_type, bad_length}
use pipool.Rpc.Base58.{p2pkh_script, build_p2pkh_script}
use pipool.Rpc.Bech32.{xor_gens, charset_values, bech32_convert_bits, build_segwit_script}

abbrev pub cash_addr_gen : List ℕ
cash_addr_gen = 0x98f2bc8e61 ∷ 0x79b76d99e2 ∷ 0xf33e5fb3c4 ∷ 0xae2eabe2a8 ∷ 0x1e4f43e470 ∷ []

-- The loop of cashAddrPolymod; the final `c ^ 1` is in `cash_addr_polymod`.
unfoldable pub cash_addr_loop : ℕ → List ℕ → ℕ
unfolding xor_gens
cash_addr_loop c [] = c
cash_addr_loop c (d ∷ values) =
    cash_addr_loop (xor_gens cash_addr_gen (c / 2 ^ 35) (bit_xor (c % 2 ^ 35 * 32) d)) values

unfoldable pub cash_addr_polymod : List ℕ → ℕ
unfolding cash_addr_loop
cash_addr_polymod values = bit_xor (cash_addr_loop 1 values) 1

unfoldable pub cash_addr_verify_checksum : List ℕ → List ℕ → Bool
unfolding cash_addr_polymod
cash_addr_verify_checksum hrp values =
    cash_addr_polymod (map (λ c. c % 32) hrp ++ (0 ∷ values)) == 0

-- The prefix and the payload of an address in lower case: `strings.SplitN(lower, ":", 2)`.
unfoldable pub cash_addr_parts : List ℕ → List ℕ × List ℕ
cash_addr_parts lower = elim (index_byte lower b':') [
  | none ↦ (codes "bitcoincash", lower)
  | some i ↦ (take i lower, drop (i + 1) lower)
]

-- The part of decodeCashAddr after the checksum has been stripped.
unfoldable pub cash_addr_hash : List ℕ → Result (ℕ × List ℕ)
cash_addr_hash [] = err empty_payload
cash_addr_hash (version ∷ groups) =
    if ltb 1 (version / 8 % 32)
    then err unsupported_type
    else bech32_convert_bits groups 5 8 false >>= λ hash_bytes.
        if length hash_bytes == 20 then ok (version / 8 % 32, hash_bytes) else err bad_length

-- `values[:len(values)-8]` panics on fewer than eight values.
unfoldable pub cash_addr_checked : List ℕ → List ℕ → Result (ℕ × List ℕ)
cash_addr_checked hrp values =
    if cash_addr_verify_checksum hrp values
    then if ltb (length values) 8
      then panicked
      else cash_addr_hash (take (length values - 8) values)
    else err invalid_checksum

unfoldable pub decode_cash_addr : List ℕ → Result (ℕ × List ℕ)
decode_cash_addr addr =
    let parts = cash_addr_parts (map to_lower (trim_space addr)) in
    charset_values parts.1 >>= λ values. cash_addr_checked parts.0 values

-- OP_HASH160 <20 bytes> OP_EQUAL
unfoldable pub p2sh_script : List ℕ → List ℕ
p2sh_script hash20 = 0xa9 ∷ 0x14 ∷ (fixed 20 hash20 ++ (0x87 ∷ []))

unfoldable pub build_cash_addr_script : List ℕ → Result (List ℕ)
build_cash_addr_script addr = decode_cash_addr addr >>= λ (h_type, hash20).
    if h_type == 1 then ok (p2sh_script hash20) else ok (p2pkh_script hash20)

-- `strings.Contains(lower, ":")`
unfoldable pub has_colon : List ℕ → Bool
has_colon lower = elim (index_byte lower b':') [ none ↦ false | some i ↦ true ]

unfoldable pub is_segwit : List ℕ → Bool
is_segwit lower =
    has_prefix lower (codes "bc1")
    || (has_prefix lower (codes "ltc1")
        || (has_prefix lower (codes "doge1")
            || (has_prefix lower (codes "dgb1")
                || (has_prefix lower (codes "tb1") || has_prefix lower (codes "tltc1")))))

unfoldable pub build_output_script : (List ℕ → List ℕ) → List ℕ → Result (List ℕ)
build_output_script sha256 addr =
    let lower = map to_lower (trim_space addr) in
    if has_colon lower
    then build_cash_addr_script addr
    else if is_segwit lower
    then build_segwit_script addr
    else build_p2pkh_script sha256 addr
