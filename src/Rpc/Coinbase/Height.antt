-- ===== src/Rpc/Coinbase/Height.antt =====
-- encodeHeight writes a script number: the height in the fewest bytes, with a clear sign bit.
use pipool.Base.{
  ℕ, zero, suc, ◌*◌, ◌/◌, ◌%◌, ◌^◌, ◌<◌, ◌≤◌, ◌≡◌, ◌≢◌, refl, ap, ◌∙◌, sym, arith, true, false,
}
use pipool.Base.{
  List, [], ◌∷◌, ◌++◌, length, length-append, ◌==◌, leb, Bool-cases, inl, inr, ◌⊎◌, dec_lt,
}
use pipool.Base.Bytes.{IsByte, All, All-append, le_value}
use native.Mathlib.Nat.{pow-suc}
use pipool.Rpc.Coinbase.{height_bytes, last_byte, sign_byte, encode_height}

-- Bytes of a number, lowest first, as few as it has.
record IsShortest (h : ℕ) (b : List ℕ) : Type 0 where
  value : le_value b ≡ h
  bytes : All IsByte b
  small : h < 256 ^ length b
  least : (b ≡ []) ⊎ (256 ^ length b ≤ 256 * h)

height_bytes-IsShortest : (fuel h : ℕ) → h < 256 ^ fuel → IsShortest h (height_bytes fuel h)
unfolding height_bytes
height_bytes-IsShortest zero h l = record {
  value = omega arith;
  bytes = tt;
  small = omega arith;
  least = inl refl;
}
height_bytes-IsShortest (suc fuel) h l = elim (Bool-cases (h == 0)) [
  | inl e ↦
      let z : h ≡ 0 = ground arith in
      rw e (record { value = sym z; bytes = tt; small = omega arith; least = inl refl })
  | inr e ↦
      let nz : h ≢ 0 = ground arith in
      let ih = height_bytes-IsShortest fuel (h / 256) (omega (arith, pow-suc 256 fuel)) in
      let step = pow-suc 256 (length (height_bytes fuel (h / 256))) in
      rw e (record {
        value = omega (arith, ih.value);
        bytes = (omega arith, ih.bytes);
        small = omega (arith, ih.small, step);
        least = inr (elim ih.least [
          | inl none_ ↦ rw none_ (omega arith)
          | inr big ↦ omega (arith, big, step)
        ]);
      })
]

-- The highest bit of the last byte tells whether the number is at least half of what its bytes hold.
sign_bit :
    (b : ℕ) (bs : List ℕ)
    → All IsByte (b ∷ bs)
    → ((128 ≤ last_byte (b ∷ bs)) × (256 ^ length (b ∷ bs) ≤ 2 * le_value (b ∷ bs)))
      ⊎ ((last_byte (b ∷ bs) < 128) × (2 * le_value (b ∷ bs) < 256 ^ length (b ∷ bs)))
unfolding last_byte
sign_bit b [] (hb, hbs) = ground arith
sign_bit b (c ∷ bs) (hb, hbs) = elim (sign_bit c bs hbs) [
  | inl (high, big) ↦ inl (high, omega (arith, big, pow-suc 256 (suc (length bs))))
  | inr (low, small) ↦
      inr (low, omega (arith, small, pow-suc 256 (suc (length bs)), pow-suc 256 (length bs)))
]

le_value-zero : (b : List ℕ) → le_value (b ++ (0 ∷ [])) ≡ le_value b
le_value-zero [] = omega arith
le_value-zero (x ∷ b) = omega (arith, le_value-zero b)

-- What a script's reader finds behind the length byte: the height as a number whose sign bit is
-- clear, in the fewest bytes for that.
pub record IsScriptNumber (h : ℕ) (bytes : List ℕ) : Type 0 where
  pub value : le_value bytes ≡ h
  pub all_bytes : All IsByte bytes
  pub sign_clear : 2 * h < 256 ^ length bytes
  pub minimal : 256 ^ length bytes ≤ 512 * h
  pub short : length bytes ≤ 8

le→leb : (a b : ℕ) → a ≤ b → leb a b ≡ true
le→leb a b h = ground arith

lt→leb_false : (a b : ℕ) → b < a → leb a b ≡ false
lt→leb_false a b h = ground arith

-- Eight bytes with the sign bit taken do not occur below 2 ^ 63.
eight : (n h : ℕ) → n ≤ 8 → h < 2 ^ 63 → 256 ^ n ≤ 2 * h → suc n ≤ 8
eight n h len l big = elim (dec_lt n 8) [
  | yes less ↦ less
  | no all ↦ let at : n ≡ 8 = omega arith in absurd (omega (arith, big, ap (λ (k : ℕ). 256 ^ k) at))
]

sign_byte-IsScriptNumber :
    (h : ℕ) (b : List ℕ)
    → h ≢ 0
    → h < 2 ^ 63
    → IsShortest h b
    → length b ≤ 8
    → IsScriptNumber h (sign_byte b)
unfolding sign_byte
sign_byte-IsScriptNumber h [] nz l s len = absurd (nz (sym s.value))
sign_byte-IsScriptNumber h (b ∷ bs) nz l s len = elim (sign_bit b bs s.bytes) [
  | inl (high, big) ↦ rw (le→leb 128 (last_byte (b ∷ bs)) high) (record {
    value = le_value-zero (b ∷ bs) ∙ s.value;
    all_bytes = All-append IsByte (b ∷ bs) (0 ∷ []) s.bytes (omega arith, tt);
    sign_clear = rw at_length (omega (arith, s.small, pow-suc 256 (suc (length bs))));
    minimal = rw at_length (omega (arith, big, s.value, pow-suc 256 (suc (length bs))));
    short = rw at_length (eight (suc (length bs)) h len l (omega (arith, big, s.value)));
  })
  | inr (low, small) ↦ rw (lt→leb_false 128 (last_byte (b ∷ bs)) low) (record {
    value = s.value;
    all_bytes = s.bytes;
    sign_clear = omega (arith, small, s.value);
    minimal = elim s.least [ inl none_ ↦ cc | inr big ↦ omega (arith, big) ];
    short = len;
  })
]
  where
    at_length : length (b ∷ (bs ++ (0 ∷ []))) ≡ suc (suc (length bs))
    at_length = omega (arith, length-append bs (0 ∷ []))

height_bytes-short : (fuel h : ℕ) → length (height_bytes fuel h) ≤ fuel
unfolding height_bytes
height_bytes-short zero h = omega arith
height_bytes-short (suc fuel) h = ground (arith, height_bytes-short fuel (h / 256))

-- A positive height below 2 ^ 63 is encoded as a length byte and that many bytes, which are at most
-- eight and are the shortest script number of the height.
pub encode_height_lem :
    (h : ℕ)
    → h ≢ 0
    → h < 2 ^ 63
    → (bytes : List ℕ) × (encode_height h ≡ length bytes ∷ bytes) × IsScriptNumber h bytes
unfolding encode_height
encode_height_lem h nz l =
    let number =
      sign_byte-IsScriptNumber h (height_bytes 8 h) nz l (height_bytes-IsShortest 8 h (omega arith))
        (height_bytes-short 8 h) in
    let fits : length (sign_byte (height_bytes 8 h)) % 256 ≡ length (sign_byte (height_bytes 8 h)) =
      omega (arith, number.short) in
    let test : (h == 0) ≡ false = ground arith in
    (
      sign_byte (height_bytes 8 h),
      rw test (ap (λ (n : ℕ). n ∷ sign_byte (height_bytes 8 h)) fits),
      number,
    )
