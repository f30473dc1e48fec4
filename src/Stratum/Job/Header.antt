-- ===== src/Stratum/Job/Header.antt =====
-- The header of a share for a job of buildJob is that of a block on the template.
use pipool.Base.{ℕ, ◌≡◌, refl, ap, ap₂, ◌∙◌, Bool, List, [], ◌∷◌, map, some}
use pipool.Base.{reverse, length, ==_iff, ◌+◌, arith}
use mathlib.Core.List.{reverse_aux}
use mathlib.Core.Path.{subst}
use pipool.Base.Options.{>>=-some, by_some}
use pipool.Base.Bytes.{IsByte, All, le_bytes}
use pipool.Go.Hex.{hex_encode, hex_decode-hex_encode}
use pipool.Merge.Commitment.{Works, Symbol, build_coinbase_commitment}
use pipool.Merge.Merkle.{Hash, hash_pair}
use pipool.Rpc.Coinbase.{create_coinbase_tx}
use pipool.Stratum.Job.{BlockTemplate, TxData, build_job, gather_aux_works, coinbase_of}
use pipool.Stratum.Merkle.{build_merkle_branch, dsha256}
use pipool.Stratum.Merkle.Root.{IsRoot, climb, build_merkle_branch-IsRoot}
use pipool.Stratum.Share.{
  Job, Work, decode, decode_exactly, fold_branches, share_header, header_of, coinbase_hex,
}
use pipool.Stratum.Share.Assembly.{HeaderParts, share_header-parts}
use pipool.Stratum.Worker.{Server}
use pipool.Go.Float.{Float64}
use pipool.Stratum.Text.{
  reverse_byte_order, hex_reverse_bytes, reverse_byte_order-reverse_byte_order,
}

reverse_aux-bytes :
    (bs acc : Hash) → All IsByte bs → All IsByte acc → All IsByte (reverse_aux bs acc)
reverse_aux-bytes [] acc h k = k
reverse_aux-bytes (b ∷ bs) acc (hb, h) k = reverse_aux-bytes bs (b ∷ acc) h (hb, k)

length-reverse_aux : (bs acc : Hash) → length (reverse_aux bs acc) ≡ length bs + length acc
length-reverse_aux [] acc = omega arith
length-reverse_aux (b ∷ bs) acc = omega (arith, length-reverse_aux bs (b ∷ acc))

decode-hex_encode : (bs : Hash) → All IsByte bs → decode (hex_encode bs) ≡ some bs
unfolding decode
decode-hex_encode bs h = rw (hex_decode-hex_encode bs h) refl

hex_reverse_bytes-hex_encode :
    (bs : Hash) → All IsByte bs → hex_reverse_bytes (hex_encode bs) ≡ hex_encode (reverse bs)
unfolding hex_reverse_bytes
hex_reverse_bytes-hex_encode bs h = rw (hex_decode-hex_encode bs h) refl

decode_exactly-hex_encode :
    (n : ℕ) (bs : Hash) → All IsByte bs → length bs ≡ n → decode_exactly n (hex_encode bs) ≡ some bs
unfolding decode_exactly
decode_exactly-hex_encode n bs h e =
    rw (hex_decode-hex_encode bs h, (==_iff (length bs) n).1 e) refl

-- The wire forms of the template's transactions.
abbrev pub wire_ids : List Hash → List Hash
wire_ids = map reverse

module _ (sha256 : List ℕ → List ℕ) where
  fold_branches-climb :
      (c : Hash) (bs : List Hash)
      → All (All IsByte) bs
      → fold_branches sha256 c (map hex_encode bs) ≡ some (climb sha256 c bs)
  unfolding fold_branches hash_pair dsha256
  fold_branches-climb c [] h = refl
  fold_branches-climb c (b ∷ bs) (hb, h) =
      rw (decode-hex_encode b hb) (fold_branches-climb (hash_pair sha256 c b) bs h)

  AreBytes-wire_ids : (ids : List Hash) → All (All IsByte) ids → All (All IsByte) (wire_ids ids)
  AreBytes-wire_ids [] h = tt
  AreBytes-wire_ids (i ∷ ids) (hi, h) = (reverse_aux-bytes i [] hi tt, AreBytes-wire_ids ids h)

  hex_ids :
      (txs : List TxData) (ids : List Hash)
      → All (All IsByte) ids
      → map (λ (tx : TxData). tx.tx_id) txs ≡ map hex_encode ids
      → map (λ (tx : TxData). hex_reverse_bytes tx.tx_id) txs ≡ map hex_encode (wire_ids ids)
  hex_ids [] [] h e = refl
  hex_ids [] (i ∷ ids) h e = cc
  hex_ids (tx ∷ txs) [] h e = cc
  hex_ids (tx ∷ txs) (i ∷ ids) (hi, h) e =
      let p : tx.tx_id ≡ hex_encode i = cc in
      let q : map (λ (t : TxData). t.tx_id) txs ≡ map hex_encode ids = cc in
      ap₂ (λ x xs. x ∷ xs) (ap hex_reverse_bytes p ∙ hex_reverse_bytes-hex_encode i hi)
        (hex_ids txs ids h q)

  module _ (id wallet coinbase_tag : List ℕ) (known : Works) (children : List Symbol)
      (clean_jobs : Bool) (bt : BlockTemplate) {F : Type 0} (f64 : Float64 F) (ratio : ℕ → ℕ → F)
      (algo : List ℕ) (s : Server F) where
    build_job-fields :
        {job : Job} {s' : Server F}
        → build_job f64 ratio algo sha256 id wallet coinbase_tag known children clean_jobs bt s
          ≡ some (job, s')
        → job.prev_hash ≡ reverse_byte_order (hex_reverse_bytes bt.previous_block_hash)
          × build_merkle_branch sha256
              (map (λ (tx : TxData). hex_reverse_bytes tx.tx_id) bt.transactions)
            ≡ some job.merkle_branches
    unfolding build_job
    build_job-fields {job} {s'} e =
        let (commitment, e₁, f₁) =
          >>=-some (build_coinbase_commitment sha256 (gather_aux_works known children)) _ e in
        let (branches, e₂, f₂) =
          >>=-some
            (build_merkle_branch sha256
              (map (λ (tx : TxData). hex_reverse_bytes tx.tx_id) bt.transactions))
            _ f₁ in
        let (parts, e₃, f₃) =
          >>=-some
            (coinbase_of (
              create_coinbase_tx sha256 wallet bt.coinbase_value bt.height 12 coinbase_tag
                bt.default_witness_commitment commitment.0))
            _ f₂ in
        by_some
          (λ (r : Job × Server F).
            r.0.prev_hash ≡ reverse_byte_order (hex_reverse_bytes bt.previous_block_hash)
            × build_merkle_branch sha256
                (map (λ (tx : TxData). hex_reverse_bytes tx.tx_id) bt.transactions)
              ≡ some r.0.merkle_branches)
          f₃ (refl, e₂)

    -- Let sha256 give bytes, the template's previous hash be 32 bytes in hex, and its transactions' identifiers hashes in
    -- hex. A header that validateShare hashes for a job of buildJob, whatever the miner submits, then has
    -- the previous hash with its bytes reversed, and the Merkle root of the hash of the coinbase, which is
    -- the one of the job and the share, and the identifiers with their bytes reversed.
    pub build_job-share_header :
        (out : (bs : List ℕ) → All IsByte (sha256 bs)) (w : Work) {job : Job} {s' : Server F}
        {header : List ℕ → List ℕ} (prev : Hash) (ids : List Hash)
        → bt.previous_block_hash ≡ hex_encode prev
        → length prev ≡ 32
        → All IsByte prev
        → map (λ (tx : TxData). tx.tx_id) bt.transactions ≡ map hex_encode ids
        → All (All IsByte) ids
        → build_job f64 ratio algo sha256 id wallet coinbase_tag known children clean_jobs bt s
          ≡ some (job, s')
        → share_header sha256 job w ≡ some header
        → (coinbase : List ℕ) × (root : Hash) × (version : ℕ) × (ntime : ℕ) × (nbits : ℕ) × decode
              (coinbase_hex job w)
            ≡ some coinbase
          × IsRoot sha256 (dsha256 sha256 coinbase ∷ wire_ids ids) root
          × header_of (le_bytes 4 version) (reverse prev) root (le_bytes 4 ntime) (le_bytes 4 nbits)
            ≡ header
    build_job-share_header out w {job} {s'} {header} prev ids ep len hp ei hi ej eh =
        let p : HeaderParts sha256 job w header = share_header-parts sha256 job w eh in
        let (prev_is, branch_is) = build_job-fields ej in
        let c : Hash = dsha256 sha256 p.coinbase in
        let (bs, eb, hb, root) =
          build_merkle_branch-IsRoot sha256 out (wire_ids ids) c (AreBytes-wire_ids ids hi) in
        let same : job.merkle_branches ≡ map hex_encode bs =
          cc (branch_is, eb, hex_ids bt.transactions ids hi ei) in
        let folds : fold_branches sha256 c job.merkle_branches ≡ some (climb sha256 c bs) =
          ap (fold_branches sha256 c) same ∙ fold_branches-climb c bs hb in
        let root_is : climb sha256 c bs ≡ p.root = cc (folds, p.folded) in
        let wire : reverse_byte_order job.prev_hash ≡ hex_encode (reverse prev) =
          ap reverse_byte_order prev_is
          ∙ reverse_byte_order-reverse_byte_order (hex_reverse_bytes bt.previous_block_hash)
          ∙ ap hex_reverse_bytes ep
          ∙ hex_reverse_bytes-hex_encode prev hp in
        let prev_ok : decode_exactly 32 (reverse_byte_order job.prev_hash) ≡ some (reverse prev) =
          ap (decode_exactly 32) wire
          ∙ decode_exactly-hex_encode 32 (reverse prev) (reverse_aux-bytes prev [] hp tt)
              (omega (arith, length-reverse_aux prev [])) in
        let prev_same : reverse prev ≡ p.prev = cc (prev_ok, p.prev_read) in
        (
          p.coinbase,
          p.root,
          p.version,
          p.ntime,
          p.nbits,
          p.decoded,
          subst (IsRoot sha256 (c ∷ wire_ids ids)) root_is root,
          ap
                (λ t.
                  header_of (le_bytes 4 p.version) t p.root (le_bytes 4 p.ntime)
                    (le_bytes 4 p.nbits))
                prev_same
              ∙ p.is_header,
        )
