-- ===== src/Rpc/Result.antt =====
-- What a function of internal/rpc returns: a value, one of its errors, or a Go panic.
use pipool.Base.{◌≡◌, refl, ◌⊎◌, inl, inr}

pub data Error : Type 0 where
  invalid_character too_short invalid_checksum payload_too_short : Error
  mixed_case bad_separator invalid_value invalid_padding : Error
  empty_payload bad_witness_version bad_length unsupported_type : Error

pub data Result {ℓ} (A : Type ℓ) : Type ℓ where
  ok : A → Result A
  err : Error → Result A
  panicked : Result A

infixl 5 ◌>>=◌
abbrev pub ◌>>=◌ {ℓ κ} : {A : Type ℓ} {B : Type κ} → Result A → (A → Result B) → Result B
panicked >>= next = panicked
err why >>= next = err why
ok value >>= next = next value

-- Where a chain ends well, its first step gave a value, and the rest of it went on from there.
module _ {ℓ κ} {A : Type ℓ} {B : Type κ} where
  pub >>=-ok :
      (step : Result A) (next : A → Result B) {last : B}
      → (step >>= next) ≡ ok last
      → (first : A) × (step ≡ ok first) × (next first ≡ ok last)
  >>=-ok panicked next done = cc
  >>=-ok (err why) next done = cc
  >>=-ok (ok first) next done = (first, refl, done)

pub Result-cases {ℓ} :
    {A : Type ℓ} (r : Result A)
    → ((a : A) × (r ≡ ok a)) ⊎ (((e : Error) × (r ≡ err e)) ⊎ (r ≡ panicked))
Result-cases (ok a) = inl (a, refl)
Result-cases (err e) = inr (inl (e, refl))
Result-cases panicked = inr (inr refl)
