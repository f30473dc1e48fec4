-- ===== src/Rpc/CashAddr/Scripts.antt =====
-- BuildCashAddrScript and BuildOutputScript.
use pipool.Base.{ℕ, ◌≤◌, ◌≡◌, ap, arith, Bool-cases, inl, inr, map, ◌⊎◌}
use pipool.Base.{List, [], ◌∷◌, ◌++◌, length, length-append, ◌==◌}
use pipool.Base.Bytes.{fixed, fixed_lem, length-fixed}
use pipool.Go.Strings.{to_lower, trim_space}
use pipool.Rpc.Result.{ok, >>=-ok}
use pipool.Rpc.Base58.{p2pkh_script, b58_check_decode, build_p2pkh_script}
use pipool.Rpc.Bech32.{build_segwit_script}
use pipool.Rpc.Bech32.Scripts.{build_segwit_script-ok}
use pipool.Rpc.CashAddr.{
  p2sh_script, decode_cash_addr, build_cash_addr_script, has_colon, is_segwit,
}
use pipool.Rpc.CashAddr.{build_output_script}
use pipool.Rpc.CashAddr.Payload.{payload, decode_cash_addr-length}

length-p2pkh_script : (h : List ℕ) → length (p2pkh_script h) ≡ 25
unfolding p2pkh_script
length-p2pkh_script h =
    omega (arith, length-append (fixed 20 h) (0x88 ∷ 0xac ∷ []), length-fixed 20 h)

length-p2sh_script : (h : List ℕ) → length (p2sh_script h) ≡ 23
unfolding p2sh_script
length-p2sh_script h = omega (arith, length-append (fixed 20 h) (0x87 ∷ []), length-fixed 20 h)

-- A CashAddr address gets a script only if its payload has 41 characters; the script is then that of
-- its 20-byte hash: OP_HASH160 <hash> OP_EQUAL for type 1, and the P2PKH script for type 0.
pub build_cash_addr_script-ok :
    (addr script : List ℕ)
    → build_cash_addr_script addr ≡ ok script
    → (h_type : ℕ) × (hash20 : List ℕ) × (decode_cash_addr addr ≡ ok (h_type, hash20))
      × (length (payload addr) ≡ 41)
      × (length hash20 ≡ 20)
      × (((h_type ≡ 1) × (script ≡ 0xa9 ∷ 0x14 ∷ (hash20 ++ (0x87 ∷ []))))
          ⊎ ((h_type ≡ 0) × (script ≡ 0x76 ∷ 0xa9 ∷ 0x14 ∷ (hash20 ++ (0x88 ∷ 0xac ∷ [])))))
unfolding build_cash_addr_script p2sh_script p2pkh_script
build_cash_addr_script-ok addr script e =
    let ((t, h), ed, es) = >>=-ok (decode_cash_addr addr) _ e in
    let (len, small, size) = decode_cash_addr-length addr t h ed in
    (t, h, ed, len, size, ground (arith, fixed_lem 20 h size))

length-build_cash_addr_script :
    (addr script : List ℕ)
    → build_cash_addr_script addr ≡ ok script
    → (22 ≤ length script) × (length script ≤ 34)
unfolding build_cash_addr_script
length-build_cash_addr_script addr script e =
    let ((t, h), ed, es) = >>=-ok (decode_cash_addr addr) _ e in
    elim (Bool-cases (t == 1)) [
      | inl p2sh ↦
          let same : p2sh_script h ≡ script = ground arith in
          rw (← same) (omega (arith, length-p2sh_script h))
      | inr p2pkh ↦
          let same : p2pkh_script h ≡ script = ground arith in
          rw (← same) (omega (arith, length-p2pkh_script h))
    ]

length-build_segwit_script :
    (addr script : List ℕ)
    → build_segwit_script addr ≡ ok script
    → (22 ≤ length script) × (length script ≤ 34)
length-build_segwit_script addr script e =
    let (hrp, version, groups, program, ed, small, size, made, conv) =
      build_segwit_script-ok addr script e in
    omega (arith, ap length made)

length-build_p2pkh_script :
    (sha256 : List ℕ → List ℕ) (addr script : List ℕ)
    → build_p2pkh_script sha256 addr ≡ ok script
    → (22 ≤ length script) × (length script ≤ 34)
unfolding build_p2pkh_script
length-build_p2pkh_script sha256 addr script e =
    let ((v, h), ed, es) = >>=-ok (b58_check_decode sha256 addr) _ e in
    let same : p2pkh_script h ≡ script = ground arith in
    rw (← same) (omega (arith, length-p2pkh_script h))

-- Whatever the format of the address, an output script has 22 to 34 bytes, so that its length fits
-- the one byte that stands before it in a coinbase output.
pub length-build_output_script :
    (sha256 : List ℕ → List ℕ) (addr script : List ℕ)
    → build_output_script sha256 addr ≡ ok script
    → (22 ≤ length script) × (length script ≤ 34)
unfolding build_output_script
length-build_output_script sha256 addr script e =
    elim (Bool-cases (has_colon (map to_lower (trim_space addr)))) [
      | inl c ↦ length-build_cash_addr_script addr script (rw c at e)
      | inr n ↦ elim (Bool-cases (is_segwit (map to_lower (trim_space addr)))) [
        | inl s ↦ length-build_segwit_script addr script (rw (n, s) at e)
        | inr b ↦ length-build_p2pkh_script sha256 addr script (rw (n, b) at e)
      ]
    ]
