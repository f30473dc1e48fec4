-- ===== src/Rpc/Coinbase/ScriptSig.antt =====
-- The script of the coinbase input, which the miner's extranonce completes.
use pipool.Base.{ℕ, ◌+◌, ◌-◌, ◌<◌, ◌≡◌, refl, ap₂, sym, arith, min}
use pipool.Base.{
  List, ◌∷◌, ◌++◌, length, take, drop, length-append, length-take, append_assoc, Option,
}
use pipool.Base.{if◌then◌else◌, ltb}
use pipool.Rpc.Result.{ok, >>=-ok}
use pipool.Rpc.CashAddr.{build_output_script}
use pipool.Rpc.Coinbase.{encode_height, trim_tag, coinbase_tag_bytes, coinbase_script_len}
use pipool.Rpc.Coinbase.{
  coinbase_part1, coinbase_part2, reward_script, witness_comm_bytes, create_coinbase_tx,
}

length-trim_tag :
    (rest : ℕ) (tag : List ℕ)
    → length (trim_tag rest tag)
      ≡ (if ltb rest 100 then min (100 - rest) (min 20 (length tag)) else min 20 (length tag))
unfolding trim_tag
length-trim_tag rest tag = ground (
  arith,
  length-take 20 tag,
  length-take (length (take 20 tag) - (rest + length (take 20 tag) - 100)) (take 20 tag),
)

-- With fewer than 100 bytes besides its tag, the script keeps the limit of 100 bytes, and the tag is
-- cut (to 20 bytes first) only as far as this needs; with 100 or more, the tag is not cut below 20
-- bytes.
pub coinbase_script_len-limit :
    (height size : ℕ) (tag aux : List ℕ)
    → let rest = length (encode_height height) + size + length aux in
      coinbase_script_len height size tag aux
      ≡ (if ltb rest 100 then min 100 (rest + min 20 (length tag)) else rest + min 20 (length tag))
unfolding coinbase_script_len coinbase_tag_bytes
coinbase_script_len-limit height size tag aux =
    ground (arith, length-trim_tag (length (encode_height height) + size + length aux) tag)

pub create_coinbase_tx-parts :
    (sha256 : List ℕ → List ℕ) (addr : List ℕ) (value height size : ℕ) (tag witness aux : List ℕ)
    → (part1 part2 : List ℕ)
    → create_coinbase_tx sha256 addr value height size tag witness aux ≡ ok (part1, part2)
    → (script : List ℕ) × (reward_script (build_output_script sha256 addr) ≡ ok script)
      × (part1 ≡ coinbase_part1 height size tag aux)
      × (part2 ≡ coinbase_part2 aux value script (witness_comm_bytes witness))
unfolding create_coinbase_tx
create_coinbase_tx-parts sha256 addr value height size tag witness aux p1 p2 e =
    let (script, es, ep) = >>=-ok (reward_script (build_output_script sha256 addr)) _ e in
    let first : coinbase_part1 height size tag aux ≡ p1 = cc in
    let second : coinbase_part2 aux value script (witness_comm_bytes witness) ≡ p2 = cc in
    (script, es, sym first, sym second)

part2_split :
    (aux : List ℕ) (value : ℕ) (script : List ℕ) (witness : Option (List ℕ))
    → (rest : List ℕ) × (coinbase_part2 aux value script witness
        ≡ aux ++ (0xff ∷ 0xff ∷ 0xff ∷ 0xff ∷ rest))
unfolding coinbase_part2
part2_split aux value script witness = (_, refl)

-- With an extranonce of the announced size between the two parts, and a script of fewer than 256
-- bytes, the input of the transaction has behind its 41 first bytes a length byte and that many
-- bytes of script: the height, the tag, the extranonce and the commitment. The sequence follows.
pub create_coinbase_tx-script :
    (sha256 : List ℕ → List ℕ) (addr : List ℕ) (value height size : ℕ) (tag witness aux : List ℕ)
    → (part1 part2 extranonce : List ℕ)
    → create_coinbase_tx sha256 addr value height size tag witness aux ≡ ok (part1, part2)
    → length extranonce ≡ size
    → coinbase_script_len height size tag aux < 256
    → let script =
        encode_height height ++ (coinbase_tag_bytes height size tag aux ++ (extranonce ++ aux)) in
      (rest : List ℕ) × (drop 41 (part1 ++ (extranonce ++ part2))
        ≡ length script ∷ (script ++ (0xff ∷ 0xff ∷ 0xff ∷ 0xff ∷ rest)))
create_coinbase_tx-script sha256 addr value height size tag witness aux p1 p2 en e len small =
    let (out, eo, e1, e2) =
      create_coinbase_tx-parts sha256 addr value height size tag witness aux p1 p2 e in
    let (rest, e3) = part2_split aux value out (witness_comm_bytes witness) in
    let script = encode_height height ++ (coinbase_tag_bytes height size tag aux ++ (en ++ aux)) in
    let count : coinbase_script_len height size tag aux ≡ length script =
      unfold coinbase_script_len in
      omega (
        arith,
        length-append (encode_height height)
            (coinbase_tag_bytes height size tag aux ++ (en ++ aux)),
        length-append (coinbase_tag_bytes height size tag aux) (en ++ aux),
        length-append en aux,
      ) in
    (
      rest,
      rw (e1, e2, e3) (unfold coinbase_part1 in ap₂ ◌∷◌ (omega (arith, count)) (simp append_assoc)),
    )
