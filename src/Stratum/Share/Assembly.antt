-- ===== src/Stratum/Share/Assembly.antt =====
-- assembleBlockHex serializes the header whose hash validateShare checked.
use pipool.Base.{
  ℕ, ◌+◌, ◌^◌, ◌<◌, ◌≤◌, ◌≡◌, refl, sym, append-nil, append_assoc, ap, ap₂, ◌∙◌, inl, inr, Bool,
  true,
}
use pipool.Base.{List, [], ◌∷◌, ◌++◌, length, reverse, Option, some, Bool-cases, leb}
use pipool.Base.Options.{>>=-some}
use pipool.Base.Bytes.{concat, le_bytes, base_value}
use pipool.Go.Hex.{hex_encode, hex_decode}
use pipool.Merge.VarInt.{var_int, read_var_int, read_var_int-var_int}
use pipool.Go.ParseUint.{parse_uint, hex_decode-eight}
use pipool.Stratum.Merkle.{dsha256}
use pipool.Stratum.Text.{reverse_byte_order}
use pipool.Stratum.Share.{Job, Work, Block, nbits_to_target, diff1_target, decode, decode_exactly}
use pipool.Stratum.Share.{
  parsed, swap_four, write_txs, header_of, coinbase_hex, fold_branches, assemble_block_hex,
}
use pipool.Stratum.Share.{hash_big, hash_header, share_header, validate_share}
use pipool.Stratum.Share.Valid.{validate_share_lem}

parsed-some : (s : List ℕ) {n : ℕ} → parsed s ≡ some n → parse_uint s ≡ (n, true)
unfolding parsed
parsed-some s {n} e = elim (Bool-cases (parse_uint s).1) [
  | inl ok ↦ let value : (parse_uint s).0 ≡ n = cc (rw ok at e) in ap₂ (λ a b. (a, b)) value ok
  | inr bad ↦ cc (rw bad at e)
]

-- Eight digits decode to four bytes, which the swap puts in the order of the parsed number.
decode_exactly-eight :
    (s : List ℕ) {n : ℕ}
    → length s ≡ 8
    → parsed s ≡ some n
    → decode_exactly 4 s ≡ some (reverse (le_bytes 4 n))
unfolding decode_exactly
decode_exactly-eight s {n} len e = rw (hex_decode-eight s n len (parsed-some s e)) refl

-- The bytes of hex texts, each of which is right.
abbrev pub Decoded : List (List ℕ) → List (List ℕ) → Type 0
Decoded [] [] = Unit
Decoded [] (bytes ∷ more) = ⊥
Decoded (text ∷ texts) [] = ⊥
Decoded (text ∷ texts) (bytes ∷ more) = (hex_decode text ≡ (bytes, true)) × Decoded texts more

write_txs-some :
    (block : List ℕ) (txs bodies : List (List ℕ))
    → Decoded txs bodies
    → write_txs block txs ≡ some (block ++ concat bodies)
unfolding write_txs decode
write_txs-some block [] [] h = ap some (sym (append-nil block))
write_txs-some block [] (bytes ∷ more) h = elim h [ ]
write_txs-some block (tx ∷ txs) [] h = elim h [ ]
write_txs-some block (tx ∷ txs) (bytes ∷ more) (e, h) =
    rw e (
      write_txs-some (block ++ bytes) txs more h ∙ ap some (append_assoc block bytes (concat more)))

decode-decoded :
    (text : List ℕ) {bytes : List ℕ} → decode text ≡ some bytes → hex_decode text ≡ (bytes, true)
unfolding decode
decode-decoded text {bytes} e = elim (Bool-cases (hex_decode text).1) [
  | inl fine ↦
      let same : (hex_decode text).0 ≡ bytes = cc (rw fine at e) in ap₂ (λ a b. (a, b)) same fine
  | inr bad ↦ cc (rw bad at e)
]

-- The bytes of a block: a header of which `header` is what is hashed, a count that a node reads as the
-- number of transactions, the coinbase transaction between the miner's extranonces, and the
-- template's transactions.
pub record IsSerialized (job : Job) (w : Work) (bodies : List (List ℕ)) (b : Block) : Type 0 where
  pub count : List ℕ
  pub coinbase : List ℕ
  pub counted :
      (rest : List ℕ) → read_var_int (count ++ rest) ≡ some (1 + length job.raw_tx_hexes, rest)
  pub coinbase_decoded :
      hex_decode (job.coinbase_part1 ++ (w.extranonce1 ++ (w.extranonce2 ++ job.coinbase_part2)))
      ≡ (coinbase, true)
  pub serialized :
      b.block_hex ≡ hex_encode (b.header_bytes ++ (count ++ (coinbase ++ concat bodies)))

-- What validateShare has computed of a share when it comes to hash headers.
pub record HeaderParts (sha256 : List ℕ → List ℕ) (job : Job) (w : Work) (header : List ℕ → List ℕ)
    : Type 0 where
  pub coinbase : List ℕ
  pub root : List ℕ
  pub version : ℕ
  pub prev : List ℕ
  pub ntime : ℕ
  pub nbits : ℕ
  pub decoded : decode (coinbase_hex job w) ≡ some coinbase
  pub folded : fold_branches sha256 (dsha256 sha256 coinbase) job.merkle_branches ≡ some root
  pub version_read : parsed w.version ≡ some version
  pub prev_read : decode_exactly 32 (reverse_byte_order job.prev_hash) ≡ some prev
  pub ntime_read : parsed w.ntime ≡ some ntime
  pub nbits_read : parsed job.nbits ≡ some nbits
  pub is_header :
      header_of (le_bytes 4 version) prev root (le_bytes 4 ntime) (le_bytes 4 nbits) ≡ header

module _ (sha256 : List ℕ → List ℕ) where
  pub share_header-parts :
      (job : Job) (w : Work) {header : List ℕ → List ℕ}
      → share_header sha256 job w ≡ some header
      → HeaderParts sha256 job w header
  unfolding share_header
  share_header-parts job w {header} e =
      let (coinbase, e₁, f₁) = >>=-some (decode (coinbase_hex job w)) _ e in
      let (root, e₂, f₂) =
        >>=-some (fold_branches sha256 (dsha256 sha256 coinbase) job.merkle_branches) _ f₁ in
      let (version, e₃, f₃) = >>=-some (parsed w.version) _ f₂ in
      let (prev, e₄, f₄) = >>=-some (decode_exactly 32 (reverse_byte_order job.prev_hash)) _ f₃ in
      let (ntime, e₅, f₅) = >>=-some (parsed w.ntime) _ f₄ in
      let (nbits, e₆, f₆) = >>=-some (parsed job.nbits) _ f₅ in
      record {
        coinbase = coinbase;
        root = root;
        version = version;
        prev = prev;
        ntime = ntime;
        nbits = nbits;
        decoded = e₁;
        folded = e₂;
        version_read = e₃;
        prev_read = e₄;
        ntime_read = e₅;
        nbits_read = e₆;
        is_header = cc;
      }

  assemble_block_hex-some :
      (job : Job) (w : Work) (n : List ℕ) (header : List ℕ → List ℕ) (nonce : List ℕ)
      (bodies : List (List ℕ))
      → length w.ntime ≡ 8
      → length job.nbits ≡ 8
      → 1 + length job.raw_tx_hexes < 2 ^ 64
      → Decoded job.raw_tx_hexes bodies
      → HeaderParts sha256 job w header
      → decode_exactly 4 n ≡ some nonce
      → (b : Block) × assemble_block_hex sha256 job w n ≡ some b
        × b.header_bytes ≡ header nonce
        × IsSerialized job w bodies b
  unfolding assemble_block_hex swap_four coinbase_hex
  assemble_block_hex-some job w n header nonce bodies lt ln few txs p en =
      rw
        (
          p.decoded,
          p.folded,
          p.prev_read,
          decode_exactly-eight w.ntime lt p.ntime_read,
          decode_exactly-eight job.nbits ln p.nbits_read,
          en,
          parsed-some w.version p.version_read,
          write_txs-some _ job.raw_tx_hexes bodies txs,
        )
        (
          _,
          refl,
          ap (λ h. h nonce) p.is_header,
          record {
            count = var_int (1 + length job.raw_tx_hexes);
            coinbase = p.coinbase;
            counted = λ rest. read_var_int-var_int (1 + length job.raw_tx_hexes) rest few;
            coinbase_decoded = decode-decoded (coinbase_hex job w) p.decoded;
            serialized = ap hex_encode (
                append_assoc _ (var_int (1 + length job.raw_tx_hexes) ++ p.coinbase) (concat bodies)
                ∙ ap (◌++◌ _) (
                    append_assoc (var_int (1 + length job.raw_tx_hexes)) p.coinbase
                      (concat bodies)));
          },
        )

  module _ (scrypt : List ℕ → List ℕ → ℕ → ℕ → ℕ → ℕ → Option (List ℕ)) (algo : List ℕ) {F : Type 0}
      (quotient : ℕ → F → Option ℕ) where
    -- A share that validateShare accepts, at an ntime and nbits of eight digits each and fewer than
    -- 2 ^ 64 - 1 transactions that decode, is one that assembleBlockHex makes a block of. The hex text
    -- that is sent is that of the header, a count that a node reads as the number of transactions with
    -- the coinbase, the coinbase with the miner's extranonces, and the transactions in their order. The
    -- hash of this header is within the worker's target, and within the target of nbits just where
    -- validateShare calls it a block.
    pub validate_share-assemble_block_hex :
        (job : Job) (w : Work) (nonce : List ℕ) (diff : F) (bodies : List (List ℕ))
        {is_block : Bool} {n : List ℕ}
        → length w.ntime ≡ 8
        → length job.nbits ≡ 8
        → 1 + length job.raw_tx_hexes < 2 ^ 64
        → Decoded job.raw_tx_hexes bodies
        → validate_share sha256 scrypt algo quotient job w nonce diff ≡ some (true, is_block, n)
        → (b : Block) × (raw : List ℕ) × (share_target : ℕ) × (target : ℕ) × assemble_block_hex
              sha256 job w n
            ≡ some b
          × IsSerialized job w bodies b
          × hash_header sha256 scrypt algo b.header_bytes ≡ some raw
          × nbits_to_target (hex_decode job.nbits).0 ≡ some target
          × quotient (diff1_target algo) diff ≡ some share_target
          × base_value 256 0 (reverse raw) ≤ share_target
          × leb (base_value 256 0 (reverse raw)) target ≡ is_block
    unfolding hash_big
    validate_share-assemble_block_hex job w nonce diff bodies {is_block} {n} lt ln few txs e =
        let (header, st, target, hash, ok, et, eh, es, le, flag) =
          validate_share_lem sha256 scrypt algo quotient job w nonce diff e in
        let (bytes, en, fh) = >>=-some (decode_exactly 4 n) _ eh in
        let (raw, er, fr) = >>=-some (hash_header sha256 scrypt algo (header bytes)) _ fh in
        let (b, eb, hb, sb) =
          assemble_block_hex-some job w n header bytes bodies lt ln few txs
            (share_header-parts job w ok) en in
        let same : base_value 256 0 (reverse raw) ≡ hash = cc in
        (
          b,
          raw,
          st,
          target,
          eb,
          sb,
          ap (hash_header sha256 scrypt algo) hb ∙ er,
          et,
          es,
          rw same le,
          ap (λ h. leb h target) same ∙ flag,
        )
