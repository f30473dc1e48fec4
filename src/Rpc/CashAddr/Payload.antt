-- ===== src/Rpc/CashAddr/Payload.antt =====
-- How long the payload of an accepted CashAddr address is.
use pipool.Base.{ℕ, ◌-◌, ◌≤◌, ◌/◌, ◌%◌, ◌∙◌, sym, ◌≡◌, ap, arith, false, Bool-cases, inl, inr, map}
use pipool.Base.{List, [], ◌∷◌, length, take, length-take, ltb}
use pipool.Go.Strings.{to_lower, trim_space}
use pipool.Rpc.Result.{ok, >>=-ok}
use pipool.Rpc.Bech32.{charset_values, bech32_convert_bits}
use pipool.Rpc.Bech32.ConvertBits.{bech32_convert_bits-Converts}
use pipool.Rpc.Bech32.Scripts.{charset_values-groups}
use pipool.Rpc.CashAddr.{cash_addr_parts, cash_addr_hash, cash_addr_checked, decode_cash_addr}

-- The characters after the prefix, or all of them.
abbrev pub payload : List ℕ → List ℕ
payload addr = (cash_addr_parts (map to_lower (trim_space addr))).1

cash_addr_hash-length :
    (values : List ℕ) (t : ℕ) (h : List ℕ)
    → cash_addr_hash values ≡ ok (t, h)
    → (length values ≡ 33) × (t ≤ 1) × (length h ≡ 20)
unfolding cash_addr_hash
cash_addr_hash-length [] t h e = cc
cash_addr_hash-length (v ∷ groups) t h e = elim (Bool-cases (ltb 1 (v / 8 % 32))) [
  | inl big ↦ cc (rw big at e)
  | inr small ↦
      let (bytes, eb, es) = >>=-ok (bech32_convert_bits groups 5 8 false) _ (rw small at e) in
      let conv = bech32_convert_bits-Converts groups bytes eb in
      let len : length bytes ≡ 20 = ground arith in
      let same : bytes ≡ h = ground arith in
      (omega (arith, conv.size, conv.short), ground arith, ap length (sym same) ∙ len)
]

cash_addr_checked-length :
    (hrp values : List ℕ) (t : ℕ) (h : List ℕ)
    → cash_addr_checked hrp values ≡ ok (t, h)
    → (length values ≡ 41) × (t ≤ 1) × (length h ≡ 20)
unfolding cash_addr_checked
cash_addr_checked-length hrp values t h e = ground (
  arith,
  cash_addr_hash-length (take (length values - 8) values) t h,
  length-take (length values - 8) values,
)

-- Only a payload of 41 characters is accepted, with type 0 or 1 and a hash of 20 bytes. (The payload
-- of a CashAddr address for a 20-byte hash has 42 characters: a type byte and the hash are 168 bits,
-- which fill 34 characters, and the checksum takes 8.)
pub decode_cash_addr-length :
    (addr : List ℕ) (h_type : ℕ) (hash20 : List ℕ)
    → decode_cash_addr addr ≡ ok (h_type, hash20)
    → (length (payload addr) ≡ 41) × (h_type ≤ 1) × (length hash20 ≡ 20)
unfolding decode_cash_addr
decode_cash_addr-length addr t h e =
    let (values, ev, ec) = >>=-ok (charset_values (payload addr)) _ e in
    let (len, small) = charset_values-groups (payload addr) values ev in
    let (n, type_ok, hash_ok) = cash_addr_checked-length _ values t h ec in
    (omega arith, type_ok, hash_ok)
