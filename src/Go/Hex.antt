-- ===== src/Go/Hex.antt =====
-- encoding/hex: EncodeToString and DecodeString, on the bytes of the text.
use pipool.Base.{ℕ, ◌+◌, ◌-◌, ◌*◌, ◌/◌, ◌%◌, ◌<◌, ◌≡◌, refl, arith, Bool, true, false}
use pipool.Base.{List, [], ◌∷◌, Option, none, some, ltb, leb, ◌&&◌, if◌then◌else◌, length}
use pipool.Base.Bytes.{IsByte, All}

-- The digits `0123456789abcdef`.
unfoldable pub hex_digit : ℕ → ℕ
hex_digit d = if ltb d 10 then b'0' + d else b'a' + (d - 10)

unfoldable pub from_hex_char : ℕ → Option ℕ
from_hex_char c =
    if leb b'0' c && leb c b'9'
    then some (c - b'0')
    else if leb b'a' c && leb c b'f'
    then some (c - b'a' + 10)
    else if leb b'A' c && leb c b'F'
    then some (c - b'A' + 10)
    else none

unfoldable pub hex_encode : List ℕ → List ℕ
hex_encode [] = []
hex_encode (b ∷ bs) = hex_digit (b / 16) ∷ hex_digit (b % 16) ∷ hex_encode bs

-- The bytes decoded before an error, and whether there was none.
unfoldable pub hex_decode : List ℕ → List ℕ × Bool
hex_decode [] = ([], true)
hex_decode (c ∷ []) = ([], false)
hex_decode (c ∷ d ∷ rest) =
    let more = hex_decode rest in
    elim (from_hex_char c) [
      | none ↦ ([], false)
      | some hi ↦ elim (from_hex_char d) [
        | none ↦ ([], false)
        | some lo ↦ ((hi * 16 + lo) ∷ more.0, more.1)
      ]
    ]

from_hex_char-hex_digit : (d : ℕ) → d < 16 → from_hex_char (hex_digit d) ≡ some d
unfolding from_hex_char hex_digit
from_hex_char-hex_digit d h = ground arith

-- `DecodeString` reads back the bytes that `EncodeToString` wrote, with no error.
pub hex_decode-hex_encode : (bs : List ℕ) → All IsByte bs → hex_decode (hex_encode bs) ≡ (bs, true)
unfolding hex_decode hex_encode
hex_decode-hex_encode [] h = refl
hex_decode-hex_encode (b ∷ bs) (hb, hbs) = ground (
  arith,
  from_hex_char-hex_digit (b / 16),
  from_hex_char-hex_digit (b % 16),
  hex_decode-hex_encode bs hbs,
)

pub length-hex_encode : (bs : List ℕ) → length (hex_encode bs) ≡ 2 * length bs
unfolding hex_encode
length-hex_encode [] = omega arith
length-hex_encode (b ∷ bs) = omega (arith, length-hex_encode bs)
