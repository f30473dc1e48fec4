-- ===== src/Toy.antt =====
-- Stand-ins in the examples, for crypto/sha256 (32 bytes of a number that the input stands for) and
-- for float64.
use pipool.Base.{ℕ, ◌≡◌, List, [], ◌∷◌, length, ◌^◌, ◌+◌, ◌-◌, ◌*◌, ◌/◌, ltb, leb, ◌==◌}
use pipool.Go.Float.{Float64}
use pipool.Base.Bytes.{IsByte, All, le_bytes, length-le_bytes, le_bytes-IsByte, base_value}

abbrev pub toy_sha256 : List ℕ → List ℕ
toy_sha256 bs = le_bytes 32 (base_value 257 1 bs)

pub length-toy_sha256 : (bs : List ℕ) → length (toy_sha256 bs) ≡ 32
length-toy_sha256 bs = length-le_bytes 32 (base_value 257 1 bs)

pub toy_sha256-bytes : (bs : List ℕ) → (length (toy_sha256 bs) ≡ 32) × All IsByte (toy_sha256 bs)
toy_sha256-bytes bs = (length-toy_sha256 bs, le_bytes-IsByte 32 (base_value 257 1 bs))

-- Whole numbers in place of float64.
abbrev pub whole : Float64 ℕ
whole = record {
  lit = λ n d. n;
  add = λ a b. a + b;
  sub = λ a b. a - b;
  mul = λ a b. a * b;
  div = λ a b. a / b;
  round = λ a. a;
  lt = ltb;
  le = leb;
  eq = λ a b. a == b;
  format = λ d a. a ∷ [];
}

-- Numbers with two places, as hundredths.
abbrev pub hundredths : Float64 ℕ
hundredths = record whole {
  lit = λ n d. n * 100 / 10 ^ d;
  mul = λ a b. a * b / 100;
  div = λ a b. a * 100 / b;
  round = λ a. (a + 50) / 100 * 100;
}
