-- ===== src/Rpc/Coinbase.antt =====
-- internal/rpc/client.go: encodeHeight and CreateCoinbaseTx. A height is not negative (encodeHeight
-- panics on a negative one), an int64 value is its 64-bit pattern.
pub mod Height
pub mod ScriptSig
pub mod Outputs
use pipool.Base.{ℕ, zero, suc, ◌+◌, ◌-◌, ◌*◌, ◌/◌, ◌%◌, ◌^◌, Bool, true, false, ◌&&◌, not}
use pipool.Base.{List, [], ◌∷◌, ◌++◌, Option, none, some, length, take, replicate, ltb, leb, ◌==◌}
use pipool.Base.{if◌then◌else◌}
use pipool.Base.Bytes.{le_bytes}
use pipool.Go.Hex.{hex_decode}
use pipool.Rpc.Result.{◌>>=◌, Result, ok, err, panicked}
use pipool.Rpc.CashAddr.{build_output_script}

-- `for h > 0 { b = append(b, byte(h&0xff)); h >>= 8 }`, for a height below 256 ^ fuel
unfoldable pub height_bytes : ℕ → ℕ → List ℕ
height_bytes zero h = []
height_bytes (suc fuel) h =
    let rest = height_bytes fuel (h / 256) in if h == 0 then [] else h % 256 ∷ rest

unfoldable pub last_byte : List ℕ → ℕ
last_byte [] = 0
last_byte (b ∷ []) = b
last_byte (b ∷ c ∷ bs) = last_byte (c ∷ bs)

-- A byte for the sign, where the highest bit is taken.
unfoldable pub sign_byte : List ℕ → List ℕ
sign_byte b = if leb 128 (last_byte b) then b ++ (0 ∷ []) else b

-- An int64 that is not negative has at most eight bytes.
unfoldable pub encode_height : ℕ → List ℕ
encode_height h =
    if h == 0 then 0x51 ∷ [] else let b = sign_byte (height_bytes 8 h) in length b % 256 ∷ b

-- The tag that is written: at most 20 bytes, and fewer where the script would pass 100 bytes.
-- `rest` is the length of the script without its tag.
unfoldable pub trim_tag : ℕ → List ℕ → List ℕ
trim_tag rest coinbase_tag =
    let tag = take 20 coinbase_tag in
    let script_len = rest + length tag in
    if ltb 100 script_len
    then if ltb (script_len - 100) (length tag)
      then take (length tag - (script_len - 100)) tag
      else tag
    else tag

unfoldable pub coinbase_tag_bytes : ℕ → ℕ → List ℕ → List ℕ → List ℕ
coinbase_tag_bytes height extranonce_size coinbase_tag aux_commitment =
    trim_tag (length (encode_height height) + extranonce_size + length aux_commitment) coinbase_tag

-- `scriptLen`, after the tag has been trimmed
unfoldable pub coinbase_script_len : ℕ → ℕ → List ℕ → List ℕ → ℕ
coinbase_script_len height extranonce_size coinbase_tag aux_commitment =
    length (encode_height height)
    + length (coinbase_tag_bytes height extranonce_size coinbase_tag aux_commitment)
    + extranonce_size
    + length aux_commitment

-- Version, input count, previous output, script length, and the script up to the extranonce.
unfoldable pub coinbase_part1 : ℕ → ℕ → List ℕ → List ℕ → List ℕ
coinbase_part1 height extranonce_size coinbase_tag aux_commitment =
    (1 ∷ 0 ∷ 0 ∷ 0 ∷ [])
    ++ ((1 ∷ [])
        ++ (replicate 32 0
            ++ ((0xff ∷ 0xff ∷ 0xff ∷ 0xff ∷ [])
                ++ ((coinbase_script_len height extranonce_size coinbase_tag aux_commitment % 256
                      ∷ [])
                    ++ (encode_height height
                        ++ coinbase_tag_bytes height extranonce_size coinbase_tag
                            aux_commitment)))))

-- The script of the witness commitment's output, if there is one.
unfoldable pub witness_comm_bytes : List ℕ → Option (List ℕ)
witness_comm_bytes text =
    let (decoded, fine) = hex_decode text in
    if fine && ltb 0 (length decoded)
    then if length decoded == 32
      then some (0x6a ∷ 0x24 ∷ 0xaa ∷ 0x21 ∷ 0xa9 ∷ 0xed ∷ decoded)
      else some decoded
    else none

-- The reward's script, with its length; an OP_RETURN where the address has no script.
unfoldable pub reward_script : Result (List ℕ) → Result (List ℕ)
reward_script (ok script) = ok script
reward_script (err e) = ok (0x6a ∷ [])
reward_script panicked = panicked

unfoldable pub with_length : List ℕ → List ℕ
with_length script = length script % 256 ∷ script

-- What follows the extranonce: the commitment, the sequence, the outputs, the lock time.
unfoldable pub coinbase_part2 : List ℕ → ℕ → List ℕ → Option (List ℕ) → List ℕ
unfolding with_length
coinbase_part2 aux_commitment value script witness =
    aux_commitment
    ++ ((0xff ∷ 0xff ∷ 0xff ∷ 0xff ∷ [])
        ++ ((elim witness [ none ↦ 1 | some w ↦ 2 ])
            ∷ (le_bytes 8 value
                ++ (with_length script
                    ++ ((elim witness [ none ↦ [] | some w ↦ le_bytes 8 0 ++ with_length w ])
                        ++ (0 ∷ 0 ∷ 0 ∷ 0 ∷ []))))))

unfoldable pub create_coinbase_tx :
    (List ℕ → List ℕ) → List ℕ → ℕ → ℕ → ℕ → List ℕ → List ℕ → List ℕ → Result (List ℕ × List ℕ)
create_coinbase_tx sha256 wallet_addr value height extranonce_size coinbase_tag witness_commitment
      aux_commitment =
    reward_script (build_output_script sha256 wallet_addr) >>= λ script. ok (
      coinbase_part1 height extranonce_size coinbase_tag aux_commitment,
      coinbase_part2 aux_commitment value script (witness_comm_bytes witness_commitment),
    )
