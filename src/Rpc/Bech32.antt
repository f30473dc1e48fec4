-- ===== src/Rpc/Bech32.antt =====
-- internal/rpc/bech32.go: the decoder of SegWit addresses. Addresses are ASCII text, as bytes.
pub mod Groups
pub mod ConvertBits
pub mod Scripts
use pipool.Base.{
  ℕ, zero, suc, ◌+◌, ◌-◌, ◌*◌, ◌/◌, ◌%◌, ◌^◌, Bool, true, false, ◌&&◌, ◌||◌, not, map,
}
use pipool.Base.{List, [], ◌∷◌, ◌++◌, Option, none, some, length, take, drop, ltb, leb, ◌==◌}
use pipool.Base.{if◌then◌else◌}
use Prim.Native.Nat.{bit_xor}
use pipool.Go.Strings.{codes, index_byte, str_eq, to_lower, to_upper, last_index}
use pipool.Rpc.Result.{Result, ok, err, ◌>>=◌, invalid_character, invalid_checksum, mixed_case}
use pipool.Rpc.Result.{bad_separator, invalid_value, invalid_padding, empty_payload}
use pipool.Rpc.Result.{bad_witness_version, bad_length}

abbrev pub bech32_charset : List ℕ
bech32_charset = codes "qpzry9x8gf2tvdw0s3jn54khce6mua7l"

abbrev pub bech32_gen : List ℕ
bech32_gen = 0x3b6a57b2 ∷ 0x26508e6d ∷ 0x1ea119fa ∷ 0x3d4233dd ∷ 0x2a1462b3 ∷ []

-- `if (b>>uint(i))&1 != 0 { chk ^= bech32Gen[i] }` for each i
unfoldable pub xor_gens : List ℕ → ℕ → ℕ → ℕ
xor_gens [] b chk = chk
xor_gens (g ∷ gens) b chk = xor_gens gens (b / 2) (if b % 2 == 0 then chk else bit_xor chk g)

unfoldable pub bech32_polymod : ℕ → List ℕ → ℕ
unfolding xor_gens
bech32_polymod chk [] = chk
bech32_polymod chk (v ∷ values) =
    bech32_polymod (xor_gens bech32_gen (chk / 2 ^ 25) (bit_xor (chk % 2 ^ 25 * 32) v)) values

unfoldable pub bech32_hrp_expand : List ℕ → List ℕ
bech32_hrp_expand hrp = map (λ c. c / 32) hrp ++ (0 ∷ map (λ c. c % 32) hrp)

unfoldable pub bech32_verify_checksum : List ℕ → List ℕ → Bool
unfolding bech32_polymod bech32_hrp_expand
bech32_verify_checksum hrp values = bech32_polymod 1 (bech32_hrp_expand hrp ++ values) == 1

-- `for bits >= toBits`: the groups that are complete, and the bits that are left. With
-- `0 < to_bits` the loop makes at most `bits` rounds, which is the fuel.
unfoldable pub drain : ℕ → ℕ → ℕ → ℕ → List ℕ → List ℕ × ℕ
drain zero to_bits acc bits result = (result, bits)
drain (suc fuel) to_bits acc bits result =
    let bits' = bits - to_bits in
    let rest =
      drain fuel to_bits acc bits' (result ++ (acc / 2 ^ bits' % 2 ^ to_bits % 256 ∷ [])) in
    if leb to_bits bits then rest else (result, bits)

-- `acc` is the bit pattern of a 64-bit int. Its low `from_bits` bits are clear after the shift, so
-- `|` is a sum.
unfoldable pub convert_loop : ℕ → ℕ → List ℕ → ℕ → ℕ → List ℕ → Result (List ℕ × ℕ × ℕ)
unfolding drain
convert_loop from_bits to_bits [] acc bits result = ok (result, acc, bits)
convert_loop from_bits to_bits (v ∷ values) acc bits result =
    if leb (2 ^ from_bits) v
    then err invalid_value
    else let acc' = (acc * 2 ^ from_bits % 2 ^ 64 + v) % 2 ^ 64 in
      let drained = drain (bits + from_bits) to_bits acc' (bits + from_bits) result in
      convert_loop from_bits to_bits values acc' drained.1 drained.0

-- The padding of the last group, or the test that it is zero and short.
unfoldable pub convert_end : ℕ → ℕ → Bool → List ℕ → ℕ → ℕ → Result (List ℕ)
convert_end from_bits to_bits pad result acc bits =
    let last = acc * 2 ^ (to_bits - bits) % 2 ^ 64 % 2 ^ to_bits in
    if pad
    then if ltb 0 bits then ok (result ++ (last % 256 ∷ [])) else ok result
    else if leb from_bits bits || not (last == 0)
    then err invalid_padding
    else ok result

unfoldable pub bech32_convert_bits : List ℕ → ℕ → ℕ → Bool → Result (List ℕ)
unfolding convert_loop convert_end
bech32_convert_bits values from_bits to_bits pad = do
  (result, acc, bits) ← convert_loop from_bits to_bits values 0 0 []
  convert_end from_bits to_bits pad result acc bits

-- The characters after the separator as 5-bit groups.
unfoldable pub charset_values : List ℕ → Result (List ℕ)
charset_values [] = ok []
charset_values (c ∷ s) = elim (index_byte bech32_charset c) [
  | none ↦ err invalid_character
  | some d ↦ charset_values s >>= λ ds. ok (d ∷ ds)
]

-- The part of decodeBech32 after the separator at `pos` has been found in `lower`.
unfoldable pub decode_at : List ℕ → ℕ → Result (List ℕ × List ℕ)
decode_at lower pos =
    if ltb pos 1 || ltb (length lower) (pos + 7)
    then err bad_separator
    else charset_values (drop (pos + 1) lower) >>= λ decoded.
        if bech32_verify_checksum (take pos lower) decoded
        then ok (take pos lower, take (length decoded - 6) decoded)
        else err invalid_checksum

unfoldable pub decode_bech32 : List ℕ → Result (List ℕ × List ℕ)
decode_bech32 addr =
    if not (str_eq (map to_lower addr) addr) && not (str_eq (map to_upper addr) addr)
    then err mixed_case
    else let lower = map to_lower addr in
      elim (last_index b'1' 0 lower) [ none ↦ err bad_separator | some pos ↦ decode_at lower pos ]

-- The script of a witness version and program: its opcode, the length, the program.
unfoldable pub segwit_script : ℕ → List ℕ → List ℕ
segwit_script version program =
    (if version == 0 then 0 else 0x50 + version) ∷ length program % 256 ∷ program

-- The part of BuildSegwitScript after decoding.
unfoldable pub witness_script : List ℕ → Result (List ℕ)
witness_script [] = err empty_payload
witness_script (version ∷ groups) =
    if ltb 16 version
    then err bad_witness_version
    else bech32_convert_bits groups 5 8 false >>= λ program.
        if not (length program == 20) && not (length program == 32)
        then err bad_length
        else ok (segwit_script version program)

unfoldable pub build_segwit_script : List ℕ → Result (List ℕ)
build_segwit_script addr = do (hrp, groups) ← decode_bech32 addr; witness_script groups
