-- ===== src/Stratum/Text.antt =====
-- internal/stratum/server.go: reverseByteOrder, hexReverseBytes and reverseBytes.
use pipool.Base.{ℕ, ◌%◌, ◌≡◌, refl, ap, arith, Bool-cases, inl, inr}
use pipool.Base.{List, [], ◌∷◌, ◌==◌, if◌then◌else◌, length, reverse}
use pipool.Go.Hex.{hex_encode, hex_decode}

-- `for i := 0; i < len(hexStr); i += 8`: the pairs of each chunk of eight, or of the shorter last one, in
-- the opposite order. A chunk of an odd length does not occur.
unfoldable pub reverse_chunks : List ℕ → List ℕ
reverse_chunks [] = []
reverse_chunks (a ∷ []) = a ∷ []
reverse_chunks (a ∷ b ∷ []) = a ∷ b ∷ []
reverse_chunks (a ∷ b ∷ c ∷ []) = a ∷ b ∷ c ∷ []
reverse_chunks (a ∷ b ∷ c ∷ d ∷ []) = c ∷ d ∷ a ∷ b ∷ []
reverse_chunks (a ∷ b ∷ c ∷ d ∷ e ∷ []) = a ∷ b ∷ c ∷ d ∷ e ∷ []
reverse_chunks (a ∷ b ∷ c ∷ d ∷ e ∷ f ∷ []) = e ∷ f ∷ c ∷ d ∷ a ∷ b ∷ []
reverse_chunks (a ∷ b ∷ c ∷ d ∷ e ∷ f ∷ g ∷ []) = a ∷ b ∷ c ∷ d ∷ e ∷ f ∷ g ∷ []
reverse_chunks (a ∷ b ∷ c ∷ d ∷ e ∷ f ∷ g ∷ h ∷ rest) =
    g ∷ h ∷ e ∷ f ∷ c ∷ d ∷ a ∷ b ∷ reverse_chunks rest

unfoldable pub reverse_byte_order : List ℕ → List ℕ
reverse_byte_order text = if length text % 2 == 0 then reverse_chunks text else text

-- The loop that swaps `b[i]` and `b[j]`, and reverseBytes, both reverse the slice.
unfoldable pub hex_reverse_bytes : List ℕ → List ℕ
hex_reverse_bytes s = hex_encode (reverse (hex_decode s).0)

length-reverse_chunks : (s : List ℕ) → length (reverse_chunks s) ≡ length s
unfolding reverse_chunks
length-reverse_chunks [] = refl
length-reverse_chunks (a ∷ []) = refl
length-reverse_chunks (a ∷ b ∷ []) = refl
length-reverse_chunks (a ∷ b ∷ c ∷ []) = refl
length-reverse_chunks (a ∷ b ∷ c ∷ d ∷ []) = refl
length-reverse_chunks (a ∷ b ∷ c ∷ d ∷ e ∷ []) = refl
length-reverse_chunks (a ∷ b ∷ c ∷ d ∷ e ∷ f ∷ []) = refl
length-reverse_chunks (a ∷ b ∷ c ∷ d ∷ e ∷ f ∷ g ∷ []) = refl
length-reverse_chunks (a ∷ b ∷ c ∷ d ∷ e ∷ f ∷ g ∷ h ∷ rest) =
    omega (arith, length-reverse_chunks rest)

reverse_chunks-reverse_chunks : (s : List ℕ) → reverse_chunks (reverse_chunks s) ≡ s
unfolding reverse_chunks
reverse_chunks-reverse_chunks [] = refl
reverse_chunks-reverse_chunks (a ∷ []) = refl
reverse_chunks-reverse_chunks (a ∷ b ∷ []) = refl
reverse_chunks-reverse_chunks (a ∷ b ∷ c ∷ []) = refl
reverse_chunks-reverse_chunks (a ∷ b ∷ c ∷ d ∷ []) = refl
reverse_chunks-reverse_chunks (a ∷ b ∷ c ∷ d ∷ e ∷ []) = refl
reverse_chunks-reverse_chunks (a ∷ b ∷ c ∷ d ∷ e ∷ f ∷ []) = refl
reverse_chunks-reverse_chunks (a ∷ b ∷ c ∷ d ∷ e ∷ f ∷ g ∷ []) = refl
reverse_chunks-reverse_chunks (a ∷ b ∷ c ∷ d ∷ e ∷ f ∷ g ∷ h ∷ rest) =
    ap (λ t. a ∷ b ∷ c ∷ d ∷ e ∷ f ∷ g ∷ h ∷ t) (reverse_chunks-reverse_chunks rest)

-- The miner's reverseByteOrder undoes the server's, on every text.
pub reverse_byte_order-reverse_byte_order :
    (s : List ℕ) → reverse_byte_order (reverse_byte_order s) ≡ s
unfolding reverse_byte_order
reverse_byte_order-reverse_byte_order s = elim (Bool-cases (length s % 2 == 0)) [
  | inl even ↦ rw (even, length-reverse_chunks s, even) (reverse_chunks-reverse_chunks s)
  | inr odd ↦ rw (odd, odd) refl
]
