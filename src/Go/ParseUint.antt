-- ===== src/Go/ParseUint.antt =====
-- strconv.ParseUint(s, 16, 32).
use pipool.Base.{ℕ, ◌+◌, ◌*◌, ◌<◌, ◌≡◌, refl, sym, ◌∙◌, ap, ap₂, arith}
use pipool.Base.{Bool, true, false, List, [], ◌∷◌, none, some, ltb, if◌then◌else◌, length}
use pipool.Base.{Option-cases, inl, inr, reverse}
use pipool.Base.Bytes.{le_bytes}
use pipool.Go.Hex.{from_hex_char, hex_decode}

-- The number of the digits, behind the number `n`, and whether there was no error: what is not a digit
-- gives 0, and a number that does not fit 32 bits gives the largest that does.
unfoldable pub parse_digits : ℕ → List ℕ → ℕ × Bool
parse_digits n [] = (n, true)
parse_digits n (c ∷ cs) = elim (from_hex_char c) [
  | none ↦ (0, false)
  | some d ↦
      let rest = parse_digits (n * 16 + d) cs in
      if ltb 0xffffffff (n * 16 + d) then (0xffffffff, false) else rest
]

unfoldable pub parse_uint : List ℕ → ℕ × Bool
parse_uint [] = (0, false)
parse_uint (c ∷ cs) = parse_digits 0 (c ∷ cs)

pub from_hex_char_bound : (c : ℕ) {d : ℕ} → from_hex_char c ≡ some d → d < 16
unfolding from_hex_char
from_hex_char_bound c e = ground arith

parse_digits-cons :
    (n c : ℕ) (cs : List ℕ) (v : ℕ)
    → parse_digits n (c ∷ cs) ≡ (v, true)
    → (d : ℕ) × from_hex_char c ≡ some d × d < 16 × parse_digits (n * 16 + d) cs ≡ (v, true)
unfolding parse_digits
parse_digits-cons n c cs v e = elim (Option-cases (from_hex_char c)) [
  | inl bad ↦ absurd (ground (arith, bad))
  | inr (d, ok) ↦ (d, ok, from_hex_char_bound c ok, ground (arith, ok))
]

hex_decode-digits :
    (c d : ℕ) (rest : List ℕ) {hi lo : ℕ}
    → from_hex_char c ≡ some hi
    → from_hex_char d ≡ some lo
    → hex_decode (c ∷ d ∷ rest) ≡ ((hi * 16 + lo) ∷ (hex_decode rest).0, (hex_decode rest).1)
unfolding hex_decode
hex_decode-digits c d rest eh el = ground (arith, eh, el)

-- Two digits are a byte, for both readers.
parse_digits-byte :
    (n c d : ℕ) (rest : List ℕ) (v : ℕ)
    → parse_digits n (c ∷ d ∷ rest) ≡ (v, true)
    → (b : ℕ) × b < 256
      × parse_digits (n * 256 + b) rest ≡ (v, true)
      × hex_decode (c ∷ d ∷ rest) ≡ (b ∷ (hex_decode rest).0, (hex_decode rest).1)
parse_digits-byte n c d rest v e =
    let (hi, eh, bh, e') = parse_digits-cons n c (d ∷ rest) v e in
    let (lo, el, bl, e'') = parse_digits-cons (n * 16 + hi) d rest v e' in
    let same : (n * 16 + hi) * 16 + lo ≡ n * 256 + (hi * 16 + lo) = omega arith in
    (hi * 16 + lo, omega arith, rw same at e'', hex_decode-digits c d rest eh el)

parse_digits-nil : (n v : ℕ) → parse_digits n [] ≡ (v, true) → n ≡ v
unfolding parse_digits
parse_digits-nil n v e = ap (λ p. p.0) e

cons_cong : {x y : ℕ} {s t : List ℕ} → x ≡ y → s ≡ t → x ∷ s ≡ y ∷ t
cons_cong = ap₂ (λ x t. x ∷ t)

le_bytes-four :
    (a b c d : ℕ)
    → a < 256
    → b < 256
    → c < 256
    → d < 256
    → le_bytes 4 ((((0 * 256 + a) * 256 + b) * 256 + c) * 256 + d) ≡ d ∷ c ∷ b ∷ a ∷ []
le_bytes-four a b c d ha hb hc hd =
    cons_cong (omega arith)
      (cons_cong (omega arith) (cons_cong (omega arith) (cons_cong (omega arith) refl)))

-- Eight digits are, read as a number and written lowest byte first, their bytes in the opposite order.
pub hex_decode-eight :
    (s : List ℕ) (v : ℕ)
    → length s ≡ 8
    → parse_uint s ≡ (v, true)
    → hex_decode s ≡ (reverse (le_bytes 4 v), true)
unfolding parse_uint hex_decode
hex_decode-eight (a₁ ∷ a₂ ∷ b₁ ∷ b₂ ∷ c₁ ∷ c₂ ∷ d₁ ∷ d₂ ∷ []) v len e =
    let (a, ha, ea, xa) = parse_digits-byte 0 a₁ a₂ _ v e in
    let (b, hb, eb, xb) = parse_digits-byte _ b₁ b₂ _ v ea in
    let (c, hc, ec, xc) = parse_digits-byte _ c₁ c₂ _ v eb in
    let (d, hd, ed, xd) = parse_digits-byte _ d₁ d₂ _ v ec in
    let bytes : le_bytes 4 v ≡ d ∷ c ∷ b ∷ a ∷ [] =
      ap (le_bytes 4) (sym (parse_digits-nil _ v ed)) ∙ le_bytes-four a b c d ha hb hc hd in
    let decoded : hex_decode (a₁ ∷ a₂ ∷ b₁ ∷ b₂ ∷ c₁ ∷ c₂ ∷ d₁ ∷ d₂ ∷ [])
        ≡ (a ∷ b ∷ c ∷ d ∷ [], true) =
      rw (xa, xb, xc, xd) refl in
    decoded ∙ ap (λ t. (reverse t, true)) (sym bytes)
hex_decode-eight [] v len e = absurd (omega arith)
hex_decode-eight (a₁ ∷ []) v len e = absurd (omega arith)
hex_decode-eight (a₁ ∷ a₂ ∷ []) v len e = absurd (omega arith)
hex_decode-eight (a₁ ∷ a₂ ∷ b₁ ∷ []) v len e = absurd (omega arith)
hex_decode-eight (a₁ ∷ a₂ ∷ b₁ ∷ b₂ ∷ []) v len e = absurd (omega arith)
hex_decode-eight (a₁ ∷ a₂ ∷ b₁ ∷ b₂ ∷ c₁ ∷ []) v len e = absurd (omega arith)
hex_decode-eight (a₁ ∷ a₂ ∷ b₁ ∷ b₂ ∷ c₁ ∷ c₂ ∷ []) v len e = absurd (omega arith)
hex_decode-eight (a₁ ∷ a₂ ∷ b₁ ∷ b₂ ∷ c₁ ∷ c₂ ∷ d₁ ∷ []) v len e = absurd (omega arith)
hex_decode-eight (a₁ ∷ a₂ ∷ b₁ ∷ b₂ ∷ c₁ ∷ c₂ ∷ d₁ ∷ d₂ ∷ x ∷ rest) v len e = absurd (omega arith)
