-- ===== src/Rpc/Base58/Decode.antt =====
-- b58Decode reads the number that the text stands for, and keeps its leading zeros.
use pipool.Base.{ℕ, zero, suc, ◌+◌, ◌*◌, ◌/◌, ◌%◌, ◌^◌, ◌<◌, ◌≡◌, ◌≢◌, refl, ap, ◌∙◌, arith}
use pipool.Base.{List, [], ◌∷◌, ◌++◌, Option, none, some, length, replicate, ◌==◌}
use pipool.Base.{◌⊎◌, ◌≤◌, Option-cases, inl, inr, Bool-cases}
use pipool.Base.Bytes.{base_value, base_value-append, IsByte, All, All-append}
use native.Mathlib.Nat.{pow-suc}
use pipool.Go.Strings.{index_byte, index_byte-lt}
use pipool.Rpc.Result.{ok, err, invalid_character}
use pipool.Rpc.Base58.{b58_alphabet, b58_loop, leading, be_bytes, b58_decode}

-- The number that a base-58 text stands for: its first digit counts the most.
abbrev pub b58_number : List ℕ → Option ℕ
b58_number [] = some 0
b58_number (c ∷ s) = elim (index_byte b58_alphabet c) [
  | none ↦ none
  | some d ↦ elim (b58_number s) [ none ↦ none | some n ↦ some (d * 58 ^ length s + n) ]
]

pub base_value-zeros :
    (k : ℕ) (ds : List ℕ) → base_value 256 0 (replicate k 0 ++ ds) ≡ base_value 256 0 ds
base_value-zeros zero ds = refl
base_value-zeros (suc k) ds = base_value-zeros k ds

be_bytes-value : (fuel n : ℕ) → n < 256 ^ fuel → base_value 256 0 (be_bytes fuel n) ≡ n
unfolding be_bytes
be_bytes-value zero n h = omega arith
be_bytes-value (suc fuel) n h = ground (
  arith,
  pow-suc 256 fuel,
  be_bytes-value fuel (n / 256),
  base_value-append 256 0 (be_bytes fuel (n / 256)) (n % 256 ∷ []),
)

leading-append :
    (xs : List ℕ) (x : ℕ) → leading 0 xs ≡ 0 → (xs ≡ [] → x ≢ 0) → leading 0 (xs ++ (x ∷ [])) ≡ 0
unfolding leading
leading-append [] x h nz = let y : x ≢ 0 = nz refl in ground arith
leading-append (y ∷ xs) x h nz = ground arith

-- The bytes of a number begin with no zero.
leading-be_bytes : (fuel n : ℕ) → n < 256 ^ fuel → leading 0 (be_bytes fuel n) ≡ 0
unfolding be_bytes leading
leading-be_bytes zero n h = refl
leading-be_bytes (suc fuel) n h = elim (Bool-cases (n == 0)) [
  | inl e ↦ rw e
  | inr e ↦
      let small : n / 256 < 256 ^ fuel = omega (arith, pow-suc 256 fuel) in
      let ne : n ≢ 0 = ground arith in
      rw e (
        leading-append (be_bytes fuel (n / 256)) (n % 256) (leading-be_bytes fuel (n / 256) small)
          (λ p.
            let value = be_bytes-value fuel (n / 256) small in
            let zero_value : 0 ≡ n / 256 = rw p at value in omega arith))
]

be_bytes-IsByte : (fuel n : ℕ) → All IsByte (be_bytes fuel n)
unfolding be_bytes
be_bytes-IsByte zero n = tt
be_bytes-IsByte (suc fuel) n = elim (Bool-cases (n == 0)) [
  | inl e ↦ rw e tt
  | inr e ↦ rw e (
      All-append IsByte (be_bytes fuel (n / 256)) _ (be_bytes-IsByte fuel (n / 256))
        (omega arith, tt))
]

b58_loop_step :
    (c : ℕ) (s : List ℕ) (n d : ℕ)
    → index_byte b58_alphabet c ≡ some d
    → b58_loop (c ∷ s) n ≡ b58_loop s (n * 58 + d)
unfolding b58_loop
b58_loop_step c s n d e = rw (e, b58_loop)

b58_loop_bad :
    (c : ℕ) (s : List ℕ) (n : ℕ)
    → index_byte b58_alphabet c ≡ none
    → b58_loop (c ∷ s) n ≡ err invalid_character
unfolding b58_loop
b58_loop_bad c s n e = rw (e, b58_loop)

shift_digit :
    (n d v p : ℕ)
    → d < 58
    → v < p
    → ((n * 58 + d) * p + v ≡ n * (p * 58) + (d * p + v)) × (d * p + v < p * 58)
shift_digit n d v p hd hv = (omega arith, grind arith)

-- The loop finds the number of the text behind `n`.
b58_loop-number :
    (s : List ℕ) (n m : ℕ)
    → b58_loop s n ≡ ok m
    → (v : ℕ) × (b58_number s ≡ some v) × (m ≡ n * 58 ^ length s + v) × (v < 58 ^ length s)
b58_loop-number [] n m e =
    let same : n ≡ m = unfold b58_loop in cc in (0, refl, omega arith, omega arith)
b58_loop-number (c ∷ s) n m e = elim (Option-cases (index_byte b58_alphabet c)) [
  | inl bad ↦ cc (b58_loop_bad c s n bad)
  | inr (d, ed) ↦
      let (v, ev, em, lv) = b58_loop-number s (n * 58 + d) m (rw (b58_loop_step c s n d ed) at e) in
      let (regroup, small) =
        shift_digit n d v (58 ^ length s) (index_byte-lt b58_alphabet c ed) lv in
      (d * 58 ^ length s + v, rw (ed, b58_number, ev), rw pow-suc (em ∙ regroup), rw pow-suc small)
]

b58_loop-cases :
    (s : List ℕ) (n : ℕ)
    → ((b58_loop s n ≡ err invalid_character) × (b58_number s ≡ none))
      ⊎ ((m : ℕ) × (b58_loop s n ≡ ok m))
unfolding b58_loop
b58_loop-cases [] n = inr (n, refl)
b58_loop-cases (c ∷ s) n = elim (Option-cases (index_byte b58_alphabet c)) [
  | inl bad ↦ inl (rw (bad, b58_loop), rw (bad, b58_number))
  | inr (d, ed) ↦ elim (b58_loop-cases s (n * 58 + d)) [
    | inl (e, none_) ↦ inl (rw (ed, b58_loop) e, rw (ed, b58_number, none_))
    | inr (m, e) ↦ inr (m, rw (ed, b58_loop) e)
  ]
]

pow-le-pow : (k : ℕ) → 58 ^ k ≤ 256 ^ k
pow-le-pow zero = omega arith
pow-le-pow (suc k) = omega (arith, pow-le-pow k, pow-suc 58 k, pow-suc 256 k)

leading-replicate : (k : ℕ) (bs : List ℕ) → leading 0 bs ≡ 0 → leading 0 (replicate k 0 ++ bs) ≡ k
unfolding leading
leading-replicate zero bs h = h
leading-replicate (suc k) bs h = ap suc (leading-replicate k bs h)

zeros-IsByte : (k : ℕ) → All IsByte (replicate k 0)
zeros-IsByte zero = tt
zeros-IsByte (suc k) = (omega arith, zeros-IsByte k)

-- Decoding fails exactly on a character outside the alphabet. Otherwise the text stands for a
-- number, the result is bytes of that number, highest first, and it begins with as many zero bytes
-- as the text has `1`s.
pub b58_decode_lem :
    (s : List ℕ)
    → ((b58_decode s ≡ err invalid_character) × (b58_number s ≡ none))
      ⊎ ((bs : List ℕ) × (b58_decode s ≡ ok bs)
          × (b58_number s ≡ some (base_value 256 0 bs))
          × (leading 0 bs ≡ leading b'1' s)
          × All IsByte bs)
unfolding b58_decode
b58_decode_lem s = elim (b58_loop-cases s 0) [
  | inl (bad, none_) ↦ inl (rw bad, none_)
  | inr (n, e) ↦
      let (v, ev, en, lv) = b58_loop-number s 0 n e in
      let small : n < 256 ^ length s = omega (arith, pow-le-pow (length s)) in
      let zeros = replicate (leading b'1' s) 0 in
      inr (
        zeros ++ be_bytes (length s) n,
        rw e,
        rw
            (
              base_value-zeros (leading b'1' s) (be_bytes (length s) n),
              be_bytes-value (length s) n small,
            )
            (ev ∙ ap some (omega arith)),
        leading-replicate (leading b'1' s) _ (leading-be_bytes (length s) n small),
        All-append IsByte zeros _ (zeros-IsByte (leading b'1' s)) (be_bytes-IsByte (length s) n),
      )
]
