-- ===== src/Rpc/Tests.antt =====
-- Runs of the address and coinbase functions, and the theorems at concrete inputs.
use pipool.Base.{◌↔◌, ℕ, ◌+◌, ◌*◌, ◌<◌, ◌≤◌, ◌≡◌, refl, arith, some, false}
use pipool.Base.{List, [], ◌∷◌, ◌++◌, length, drop, replicate, if◌then◌else◌, ltb, min}
use pipool.Base.Bytes.{base_value, fixed}
use pipool.Toy.{toy_sha256, length-toy_sha256}
use pipool.Go.Hex.{hex_decode, from_hex_char}
use pipool.Go.Strings.{
  codes, str_eq, to_lower, to_upper, trim_space, index_byte, last_index, has_prefix,
}
use pipool.Rpc.Result.{ok, err, invalid_padding}
use pipool.Rpc.Base58.{b58_loop, leading, be_bytes, b58_decode, same_bytes, b58_check}
use pipool.Rpc.Base58.{b58_check_decode, build_p2pkh_script}
use pipool.Rpc.Base58.Scripts.{build_p2pkh_script_iff}
use pipool.Rpc.Bech32.{charset_values, decode_at, decode_bech32, bech32_convert_bits, segwit_script}
use pipool.Rpc.Bech32.{bech32_verify_checksum, witness_script, build_segwit_script}
use pipool.Rpc.Bech32.ConvertBits.{Converts, bech32_convert_bits-Converts}
use pipool.Rpc.CashAddr.{cash_addr_parts, cash_addr_hash, cash_addr_checked, decode_cash_addr}
use pipool.Rpc.CashAddr.{cash_addr_verify_checksum, p2sh_script, build_cash_addr_script}
use pipool.Rpc.CashAddr.{has_colon, is_segwit, build_output_script}
use pipool.Rpc.CashAddr.Payload.{payload, decode_cash_addr-length}
use pipool.Rpc.Coinbase.{encode_height, coinbase_tag_bytes, coinbase_script_len, coinbase_part1}
use pipool.Rpc.Coinbase.{coinbase_part2, reward_script, witness_comm_bytes, create_coinbase_tx}
use pipool.Rpc.Coinbase.{height_bytes, last_byte, sign_byte, trim_tag}
use pipool.Rpc.Coinbase.ScriptSig.{coinbase_script_len-limit, create_coinbase_tx-script}
use pipool.Rpc.Coinbase.Outputs.{WitnessOutput, whole_script, read_outputs}
use pipool.Rpc.Coinbase.Outputs.{create_coinbase_tx-outputs}

abbrev hash_1_20 : List ℕ
hash_1_20 =
    1 ∷ 2 ∷ 3 ∷ 4 ∷ 5 ∷ 6 ∷ 7 ∷ 8 ∷ 9 ∷ 10 ∷ 11 ∷ 12 ∷ 13 ∷ 14 ∷ 15 ∷ 16 ∷ 17 ∷ 18 ∷ 19 ∷ 20 ∷ []

abbrev checked_bytes : List ℕ
checked_bytes = 5 ∷ (hash_1_20 ++ (115 ∷ 133 ∷ 16 ∷ 130 ∷ []))

-- An address of a script hash (version 5), with the checksum of the stand-in.
abbrev script_address : List ℕ
script_address = codes "31nM1WuowNDzocNxPPW9NQWJEtwWpZrZD3"

script_address-decoded : b58_check_decode toy_sha256 script_address ≡ ok (5, hash_1_20)
unfolding b58_check_decode b58_decode b58_loop index_byte leading be_bytes b58_check same_bytes
script_address-decoded = refl

build_p2pkh_script_iff_example :
    (build_p2pkh_script toy_sha256 script_address
      ≡ ok (0x76 ∷ 0xa9 ∷ 0x14 ∷ (hash_1_20 ++ (0x88 ∷ 0xac ∷ []))))
    ↔ ((version : ℕ) × (hash20 : List ℕ) × (b58_check_decode toy_sha256 script_address
          ≡ ok (version, hash20))
        × (length hash20 ≡ 20)
        × (0x76 ∷ 0xa9 ∷ 0x14 ∷ (hash_1_20 ++ (0x88 ∷ 0xac ∷ []))
            ≡ 0x76 ∷ 0xa9 ∷ 0x14 ∷ (hash20 ++ (0x88 ∷ 0xac ∷ []))))
build_p2pkh_script_iff_example =
    build_p2pkh_script_iff toy_sha256 script_address
      (0x76 ∷ 0xa9 ∷ 0x14 ∷ (hash_1_20 ++ (0x88 ∷ 0xac ∷ []))) length-toy_sha256

script_address-built :
    build_p2pkh_script toy_sha256 script_address
    ≡ ok (0x76 ∷ 0xa9 ∷ 0x14 ∷ (hash_1_20 ++ (0x88 ∷ 0xac ∷ [])))
script_address-built =
    build_p2pkh_script_iff_example.1 (5, hash_1_20, script_address-decoded, refl, refl)

-- Eight groups are five bytes.
five_bytes :
    bech32_convert_bits (31 ∷ 0 ∷ 31 ∷ 0 ∷ 31 ∷ 0 ∷ 31 ∷ 0 ∷ []) 5 8 false
    ≡ ok (0xf8 ∷ 0x3e ∷ 0x0f ∷ 0x83 ∷ 0xe0 ∷ [])
unfolding bech32_convert_bits
five_bytes = refl

bech32_convert_bits-Converts_example :
    Converts
      (base_value 32 0 (31 ∷ 0 ∷ 31 ∷ 0 ∷ 31 ∷ 0 ∷ 31 ∷ 0 ∷ []))
      (5 * 8)
      (0xf8 ∷ 0x3e ∷ 0x0f ∷ 0x83 ∷ 0xe0 ∷ [])
bech32_convert_bits-Converts_example =
    bech32_convert_bits-Converts (31 ∷ 0 ∷ 31 ∷ 0 ∷ 31 ∷ 0 ∷ 31 ∷ 0 ∷ [])
      (0xf8 ∷ 0x3e ∷ 0x0f ∷ 0x83 ∷ 0xe0 ∷ []) five_bytes

-- The P2WPKH example of BIP 173.
abbrev segwit_address : List ℕ
segwit_address = codes "BC1QW508D6QEJXTDG4Y5R3ZARVARY0C5XW7KV8F3T4"

abbrev segwit_groups : List ℕ
segwit_groups =
    0 ∷ 14 ∷ 20 ∷ 15 ∷ 7 ∷ 13 ∷ 26 ∷ 0 ∷ 25 ∷ 18 ∷ 6 ∷ 11 ∷ 13 ∷ 8 ∷ 21 ∷ 4 ∷ 20 ∷ 3 ∷ 17 ∷ 2 ∷ 29
    ∷ 3 ∷ 12 ∷ 29 ∷ 3 ∷ 4 ∷ 15 ∷ 24 ∷ 20 ∷ 6 ∷ 14 ∷ 30 ∷ 22 ∷ []

abbrev segwit_example_script : List ℕ
segwit_example_script =
    0 ∷ 20 ∷ 0x75 ∷ 0x1e ∷ 0x76 ∷ 0xe8 ∷ 0x19 ∷ 0x91 ∷ 0x96 ∷ 0xd4 ∷ 0x54 ∷ 0x94 ∷ 0x1c ∷ 0x45
    ∷ 0xd1 ∷ 0xb3 ∷ 0xa3 ∷ 0x23 ∷ 0xf1 ∷ 0x43 ∷ 0x3b ∷ 0xd6 ∷ []

segwit_decoded : decode_bech32 segwit_address ≡ ok (codes "bc", segwit_groups)
unfolding decode_bech32 decode_at charset_values bech32_verify_checksum str_eq to_lower to_upper
    last_index index_byte
segwit_decoded = refl

segwit_built : build_segwit_script segwit_address ≡ ok segwit_example_script
unfolding build_segwit_script witness_script bech32_convert_bits segwit_script
segwit_built = rw segwit_decoded

-- A payload of 41 characters with a valid checksum.
abbrev short_cash_address : List ℕ
short_cash_address = codes "bitcoincash:gqypqxpq9qcrsszg2pvxq6rs0zqg3yyc5yzfkmudj"

-- The usual address of the same hash, with 42 characters and a valid checksum, is refused.
usual_cash_address :
    decode_cash_addr (codes "bitcoincash:qqqsyqcyq5rqwzqfpg9scrgwpugpzysnzstne440kw")
    ≡ err invalid_padding
unfolding decode_cash_addr cash_addr_parts trim_space to_lower index_byte charset_values
    cash_addr_checked cash_addr_verify_checksum cash_addr_hash bech32_convert_bits
usual_cash_address = refl

short_cash_decoded : decode_cash_addr short_cash_address ≡ ok (1, hash_1_20)
unfolding decode_cash_addr cash_addr_parts trim_space to_lower index_byte charset_values
    cash_addr_checked cash_addr_verify_checksum cash_addr_hash bech32_convert_bits
short_cash_decoded = refl

abbrev short_cash_script : List ℕ
short_cash_script = 0xa9 ∷ 0x14 ∷ (hash_1_20 ++ (0x87 ∷ []))

short_cash_built : build_cash_addr_script short_cash_address ≡ ok short_cash_script
unfolding build_cash_addr_script p2sh_script fixed
short_cash_built = rw short_cash_decoded

decode_cash_addr-length_example :
    (length (payload short_cash_address) ≡ 41) × (1 ≤ 1) × (length hash_1_20 ≡ 20)
decode_cash_addr-length_example =
    decode_cash_addr-length short_cash_address 1 hash_1_20 short_cash_decoded

segwit_output : build_output_script toy_sha256 segwit_address ≡ ok segwit_example_script
unfolding build_output_script has_colon is_segwit has_prefix trim_space to_lower index_byte
segwit_output = segwit_built

height_300 : encode_height 300 ≡ 2 ∷ 0x2c ∷ 0x01 ∷ []
unfolding encode_height sign_byte height_bytes last_byte
height_300 = refl

abbrev pool_tag : List ℕ
pool_tag = codes "/PiPool/"

coinbase_script_len-limit_example : coinbase_script_len 300 12 pool_tag (replicate 44 0) ≡ (
    if ltb (length (encode_height 300) + 12 + 44) 100
    then min 100 (length (encode_height 300) + 12 + 44 + min 20 8)
    else length (encode_height 300) + 12 + 44 + min 20 8)
coinbase_script_len-limit_example = coinbase_script_len-limit 300 12 pool_tag (replicate 44 0)

abbrev reward : ℕ
reward = 625000000

coinbase_built :
    create_coinbase_tx toy_sha256 segwit_address reward 300 4 pool_tag [] []
    ≡ ok (
      coinbase_part1 300 4 pool_tag [],
      coinbase_part2 [] reward segwit_example_script (witness_comm_bytes []),
    )
unfolding create_coinbase_tx reward_script
coinbase_built = rw segwit_output

coinbase_small : coinbase_script_len 300 4 pool_tag [] < 256
unfolding coinbase_script_len coinbase_tag_bytes trim_tag encode_height sign_byte height_bytes
    last_byte
coinbase_small = omega arith

create_coinbase_tx-script_example :
    let script =
      encode_height 300 ++ (coinbase_tag_bytes 300 4 pool_tag [] ++ ((1 ∷ 2 ∷ 3 ∷ 4 ∷ []) ++ [])) in
    (rest : List ℕ) × (drop 41 (
        coinbase_part1 300 4 pool_tag []
        ++ ((1 ∷ 2 ∷ 3 ∷ 4 ∷ [])
            ++ coinbase_part2 [] reward segwit_example_script (witness_comm_bytes [])))
      ≡ length script ∷ (script ++ (0xff ∷ 0xff ∷ 0xff ∷ 0xff ∷ rest)))
create_coinbase_tx-script_example =
    create_coinbase_tx-script toy_sha256 segwit_address reward 300 4 pool_tag [] []
      (coinbase_part1 300 4 pool_tag [])
      (coinbase_part2 [] reward segwit_example_script (witness_comm_bytes [])) (1 ∷ 2 ∷ 3 ∷ 4 ∷ [])
      coinbase_built refl coinbase_small

-- A commitment of 38 bytes, as a node gives it.
abbrev commitment_text : List ℕ
commitment_text =
    codes "6a24aa21a9ed0102030405060708090a0b0c0d0e0f101112131415161718191a1b1c1d1e1f20"

abbrev commitment_script : List ℕ
commitment_script =
    0x6a
    ∷ 0x24
    ∷ 0xaa
    ∷ 0x21
    ∷ 0xa9
    ∷ 0xed
    ∷ (hash_1_20 ++ (21 ∷ 22 ∷ 23 ∷ 24 ∷ 25 ∷ 26 ∷ 27 ∷ 28 ∷ 29 ∷ 30 ∷ 31 ∷ 32 ∷ []))

commitment_text-WitnessOutput : WitnessOutput commitment_text (some commitment_script)
unfolding hex_decode from_hex_char
commitment_text-WitnessOutput =
    whole_script commitment_script refl (λ e. omega (arith, e)) (λ e. omega (arith, e))

commitment_built :
    create_coinbase_tx toy_sha256 segwit_address reward 300 4 pool_tag commitment_text []
    ≡ ok (
      coinbase_part1 300 4 pool_tag [],
      coinbase_part2 [] reward segwit_example_script (witness_comm_bytes commitment_text),
    )
unfolding create_coinbase_tx reward_script
commitment_built = rw segwit_output

create_coinbase_tx-outputs_example :
    (script : List ℕ) × (rest : List ℕ) × (reward_script
        (build_output_script toy_sha256 segwit_address)
      ≡ ok script)
    × (drop 0 (coinbase_part2 [] reward segwit_example_script (witness_comm_bytes commitment_text))
        ≡ 0xff ∷ 0xff ∷ 0xff ∷ 0xff ∷ 2 ∷ rest)
    × (read_outputs 2 rest
        ≡ some (
          record { value = reward; script = script }
              ∷ record { value = 0; script = commitment_script }
              ∷ [],
          0 ∷ 0 ∷ 0 ∷ 0 ∷ [],
        ))
create_coinbase_tx-outputs_example =
    create_coinbase_tx-outputs toy_sha256 segwit_address reward 300 4 pool_tag commitment_text []
      (coinbase_part1 300 4 pool_tag [])
      (coinbase_part2 [] reward segwit_example_script (witness_comm_bytes commitment_text))
      (some commitment_script) commitment_built (omega arith) commitment_text-WitnessOutput
      (omega arith)
