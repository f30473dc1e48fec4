-- ===== src/Rpc/Coinbase/Outputs.antt =====
-- The outputs of the coinbase transaction, as a node reads them.
use pipool.Base.{true, false, ℕ, zero, suc, ◌^◌, ◌<◌, ◌≡◌, refl, arith, Option, none, some}
use pipool.Base.{
  List, [], ◌∷◌, ◌++◌, length, take, drop, length-append, ltb, if◌then◌else◌, inl, inr,
}
use pipool.Base.Bytes.{read_le, read_le-le_bytes, le_bytes, take-append, drop-append}
use pipool.Go.Hex.{hex_decode}
use pipool.Rpc.Result.{ok, Result-cases}
use pipool.Rpc.CashAddr.{build_output_script}
use pipool.Rpc.CashAddr.Scripts.{length-build_output_script}
use pipool.Rpc.Coinbase.{
  with_length, coinbase_part2, reward_script, witness_comm_bytes, create_coinbase_tx,
}
use pipool.Rpc.Coinbase.ScriptSig.{create_coinbase_tx-parts}

pub record Output : Type 0 where
  pub value : ℕ
  pub script : List ℕ

-- A script behind its length, which is below 253 and takes one byte.
unfoldable pub read_script : ℕ → List ℕ → Option (Output × List ℕ)
read_script value [] = none
read_script value (n ∷ rest) =
    if ltb n 253
    then if ltb (length rest) n
      then none
      else some (record { value = value; script = take n rest }, drop n rest)
    else none

-- One output: eight bytes of value, and its script.
unfoldable pub read_output : List ℕ → Option (Output × List ℕ)
read_output bs = elim (read_le 8 bs) [ none ↦ none | some (value, rest) ↦ read_script value rest ]

unfoldable pub read_outputs : ℕ → List ℕ → Option (List Output × List ℕ)
read_outputs zero bs = some ([], bs)
read_outputs (suc n) bs = elim (read_output bs) [
  | none ↦ none
  | some (o, rest) ↦ elim (read_outputs n rest) [
    | none ↦ none
    | some (os, end_) ↦ some (o ∷ os, end_)
  ]
]

read_output-written :
    (value : ℕ) (script rest : List ℕ)
    → value < 2 ^ 64
    → length script < 253
    → read_output (le_bytes 8 value ++ (with_length script ++ rest))
      ≡ some (record { value = value; script = script }, rest)
unfolding read_output read_script with_length
read_output-written value script rest hv hs = ground (
  arith,
  read_le-le_bytes 8 value (with_length script ++ rest),
  length-append script rest,
  take-append script rest (length script) refl,
  drop-append script rest (length script) refl,
)

read_outputs-zero : (bs : List ℕ) → read_outputs zero bs ≡ some ([], bs)
unfolding read_outputs
read_outputs-zero bs = refl

read_outputs_step :
    (n : ℕ) (o : Output) (os : List Output) (bs rest end_ : List ℕ)
    → read_output bs ≡ some (o, rest)
    → read_outputs n rest ≡ some (os, end_)
    → read_outputs (suc n) bs ≡ some (o ∷ os, end_)
unfolding read_outputs
read_outputs_step n o os bs rest end_ a b = ground arith

-- The outputs that the transaction has to have.
abbrev pub outputs : ℕ → List ℕ → Option (List ℕ) → List Output
outputs value script none = record { value = value; script = script } ∷ []
outputs value script (some w) =
    record { value = value; script = script } ∷ record { value = 0; script = w } ∷ []

abbrev pub WitnessFits : Option (List ℕ) → Type 0
WitnessFits none = Unit
WitnessFits (some w) = length w < 253

abbrev pub output_count : Option (List ℕ) → ℕ
output_count none = 1
output_count (some w) = 2

coinbase_part2-outputs :
    (aux : List ℕ) (value : ℕ) (script : List ℕ) (witness : Option (List ℕ))
    → value < 2 ^ 64
    → length script < 253
    → WitnessFits witness
    → (rest : List ℕ) × (drop (length aux) (coinbase_part2 aux value script witness)
        ≡ 0xff ∷ 0xff ∷ 0xff ∷ 0xff ∷ output_count witness ∷ rest)
      × (read_outputs (output_count witness) rest
          ≡ some (outputs value script witness, 0 ∷ 0 ∷ 0 ∷ 0 ∷ []))
unfolding coinbase_part2
coinbase_part2-outputs aux value script none hv hs hw = (
  _,
  drop-append aux _ (length aux) refl,
  read_outputs_step 0 _ _ _ _ _ (read_output-written value script (0 ∷ 0 ∷ 0 ∷ 0 ∷ []) hv hs)
      (read_outputs-zero _),
)
coinbase_part2-outputs aux value script (some w) hv hs hw = (
  _,
  drop-append aux _ (length aux) refl,
  read_outputs_step 1 _ _ _ _ _
      (read_output-written value script (le_bytes 8 0 ++ (with_length w ++ (0 ∷ 0 ∷ 0 ∷ 0 ∷ []))) hv
        hs)
      (read_outputs_step 0 _ _ _ _ _ (read_output-written 0 w (0 ∷ 0 ∷ 0 ∷ 0 ∷ []) (omega arith) hw)
        (read_outputs-zero _)),
)

reward_script-short :
    (sha256 : List ℕ → List ℕ) (addr script : List ℕ)
    → reward_script (build_output_script sha256 addr) ≡ ok script
    → length script < 253
unfolding reward_script
reward_script-short sha256 addr script e = elim (Result-cases (build_output_script sha256 addr)) [
  | inl (s, es) ↦
      let bound = length-build_output_script sha256 addr s es in
      let same : s ≡ script = cc in rw (← same) (omega (arith, bound))
  | inr (inl (x, ex)) ↦ let same : 0x6a ∷ [] ≡ script = cc in rw (← same) (omega arith)
  | inr (inr p) ↦ cc
]

-- The script of the output that a witness commitment, as the node's hex text, has to have, if any:
-- 32 bytes are the hash alone and get OP_RETURN, its push of 36 bytes and the tag of BIP 141; any
-- other bytes are the script; a text that is empty or not hex has no output.
pub data WitnessOutput (text : List ℕ) : Option (List ℕ) → Type 0 where
  hash_alone :
      (hash : List ℕ)
      → hex_decode text ≡ (hash, true)
      → length hash ≡ 32
      → WitnessOutput text (some (0x6a ∷ 0x24 ∷ 0xaa ∷ 0x21 ∷ 0xa9 ∷ 0xed ∷ hash))
  whole_script :
      (script : List ℕ)
      → hex_decode text ≡ (script, true)
      → ¬ (length script ≡ 0)
      → ¬ (length script ≡ 32)
      → WitnessOutput text (some script)
  no_text : hex_decode text ≡ ([], true) → WitnessOutput text none
  not_hex : (bytes : List ℕ) → hex_decode text ≡ (bytes, false) → WitnessOutput text none

witness_comm_bytes-WitnessOutput :
    (text : List ℕ) (w : Option (List ℕ)) → WitnessOutput text w → witness_comm_bytes text ≡ w
unfolding witness_comm_bytes
witness_comm_bytes-WitnessOutput text (some w) (hash_alone hash e l) = rw e (ground arith)
witness_comm_bytes-WitnessOutput text (some w) (whole_script script e h l) = rw e (ground arith)
witness_comm_bytes-WitnessOutput text none (no_text e) = rw e refl
witness_comm_bytes-WitnessOutput text none (not_hex bytes e) = rw e refl

-- Where the value is below 2 ^ 64 and the witness script below 253 bytes, the second part has
-- behind the commitment the sequence, then the number of outputs and exactly these, and a lock
-- time of 0: the reward with the script of the wallet address (a bare OP_RETURN where the address
-- has none), and, for a witness commitment that is hex and not empty, an output of value 0 whose
-- script is 6a24aa21a9ed and the 32 bytes of a hash, or else the commitment's own bytes.
pub create_coinbase_tx-outputs :
    (sha256 : List ℕ → List ℕ) (addr : List ℕ) (value height size : ℕ) (tag witness aux : List ℕ)
    → (part1 part2 : List ℕ) (w : Option (List ℕ))
    → create_coinbase_tx sha256 addr value height size tag witness aux ≡ ok (part1, part2)
    → value < 2 ^ 64
    → WitnessOutput witness w
    → WitnessFits w
    → (script : List ℕ) × (rest : List ℕ) × (reward_script (build_output_script sha256 addr)
        ≡ ok script)
      × (drop (length aux) part2 ≡ 0xff ∷ 0xff ∷ 0xff ∷ 0xff ∷ output_count w ∷ rest)
      × (read_outputs (output_count w) rest ≡ some (outputs value script w, 0 ∷ 0 ∷ 0 ∷ 0 ∷ []))
create_coinbase_tx-outputs sha256 addr value height size tag witness aux p1 p2 w e hv wo hw =
    let (script, es, e1, e2) =
      create_coinbase_tx-parts sha256 addr value height size tag witness aux p1 p2 e in
    let (rest, at_end, read) =
      coinbase_part2-outputs aux value script w hv (reward_script-short sha256 addr script es) hw in
    let e3 = rw (witness_comm_bytes-WitnessOutput witness w wo) at e2 in
    (script, rest, es, rw e3 at_end, read)
