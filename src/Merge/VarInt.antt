-- ===== src/Merge/VarInt.antt =====
-- internal/merge/auxpow.go: varInt, Bitcoin's variable-length count, and a reader of it.
use pipool.Base.{ℕ, ◌%◌, ◌^◌, ◌<◌, ◌≡◌, arith}
use pipool.Base.{List, [], ◌∷◌, ◌++◌, Option, none, some, ltb, leb, ◌==◌, if◌then◌else◌}
use pipool.Base.Bytes.{read_le, read_le-le_bytes, IsByte, All, le_bytes}

unfoldable pub var_int : ℕ → List ℕ
var_int n =
    if ltb n 0xfd
    then n % 256 ∷ []
    else if leb n 0xffff
    then 0xfd ∷ le_bytes 2 n
    else if leb n 0xffffffff
    then 0xfe ∷ le_bytes 4 n
    else 0xff ∷ le_bytes 8 n

-- Bitcoin's reading of such a count: the first byte says how many bytes follow.
unfoldable pub read_var_int : List ℕ → Option (ℕ × List ℕ)
read_var_int [] = none
read_var_int (b ∷ rest) =
    if ltb b 0xfd
    then some (b, rest)
    else if b == 0xfd
    then read_le 2 rest
    else if b == 0xfe
    then read_le 4 rest
    else read_le 8 rest

-- `varInt` of a uint64 is read back, whatever bytes follow.
pub read_var_int-var_int :
    (n : ℕ) (rest : List ℕ) → n < 2 ^ 64 → read_var_int (var_int n ++ rest) ≡ some (n, rest)
unfolding read_var_int var_int
read_var_int-var_int n rest h =
    ground (arith, read_le-le_bytes 2 n rest, read_le-le_bytes 4 n rest, read_le-le_bytes 8 n rest)

pub var_int-IsByte : (n : ℕ) → All IsByte (var_int n)
unfolding var_int
var_int-IsByte n = ground arith
