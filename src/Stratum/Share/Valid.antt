-- ===== src/Stratum/Share/Valid.antt =====
-- What validateShare accepts: a nonce, in one of its two orientations, with a hash within the target.
use pipool.Base.{ℕ, ◌≤◌, ◌≡◌, refl, sym, ap, ◌∙◌, ◌⊎◌, ◌↔◌, inl, inr, arith, Bool, true, false}
use pipool.Base.{List, [], ◌∷◌, Option, none, some, Option-cases, Bool-cases, leb}
use pipool.Base.Options.{>>=-some}
use pipool.Go.Hex.{hex_decode}
use pipool.Stratum.Text.{hex_reverse_bytes}
use pipool.Stratum.Share.{Job, Work, nbits_to_target, diff1_target}
use pipool.Stratum.Share.{
  hash_big, try_nonce, try_nonces, share_header, check_nonces, validate_share,
}

module _ (sha256 : List ℕ → List ℕ) (scrypt : List ℕ → List ℕ → ℕ → ℕ → ℕ → ℕ → Option (List ℕ))
    (algo : List ℕ) where
  -- The nonce has a hash within the target.
  abbrev pub Meets : (List ℕ → List ℕ) → ℕ → List ℕ → Type 0
  Meets header target nonce =
      (hash : ℕ) × hash_big sha256 scrypt algo header nonce ≡ some hash × hash ≤ target

  -- One turn finds the nonce, or the result is that of the later turns.
  try_nonce-cases :
      (st bt : ℕ) (n : List ℕ) (found : Option ℕ) (rest : Bool × Bool × List ℕ)
      → ((hash : ℕ) × found ≡ some hash
          × hash ≤ st
          × try_nonce st bt n found rest ≡ (true, leb hash bt, n))
        ⊎ (¬ ((hash : ℕ) × found ≡ some hash × hash ≤ st)) × try_nonce st bt n found rest ≡ rest
  unfolding try_nonce
  try_nonce-cases st bt n none rest = inr ((λ (h, e, _). cc), refl)
  try_nonce-cases st bt n (some h) rest = elim (Bool-cases (leb h st)) [
    | inl le ↦ inl (h, refl, ground arith, rw le refl)
    | inr gt ↦ inr ((λ (h', e, le). ground arith), rw gt refl)
  ]

  -- The nonce that comes out is one of those that went in, and the flags are those of its hash.
  pub try_nonces_lem :
      (header : List ℕ → List ℕ) (st bt : ℕ) (nonce : List ℕ) (ns : List (List ℕ)) {is_block : Bool}
      {n : List ℕ}
      → try_nonces sha256 scrypt algo header st bt nonce ns ≡ (true, is_block, n)
      → (hash : ℕ) × hash_big sha256 scrypt algo header n ≡ some hash
        × hash ≤ st
        × leb hash bt ≡ is_block
  unfolding try_nonces
  try_nonces_lem header st bt nonce [] e = cc
  try_nonces_lem header st bt nonce (m ∷ ms) {is_block} {n} e =
      elim (try_nonce-cases st bt m (hash_big sha256 scrypt algo header m)
        (try_nonces sha256 scrypt algo header st bt nonce ms)) [
          | inl (hash, ok, le, found) ↦
              let same : (true, leb hash bt, m) ≡ (true, is_block, n) = sym found ∙ e in
              (
                hash,
                ap (hash_big sha256 scrypt algo header) (sym (ap (λ p. p.2) same)) ∙ ok,
                le,
                ap (λ p. p.1) same,
              )
          | inr (_, later) ↦ try_nonces_lem header st bt nonce ms (sym later ∙ e)
        ]

  try_nonces-nil :
      (header : List ℕ → List ℕ) (st bt : ℕ) (nonce : List ℕ)
      → (try_nonces sha256 scrypt algo header st bt nonce []).0 ≡ false
  unfolding try_nonces
  try_nonces-nil header st bt nonce = refl

  try_nonces-cons :
      (header : List ℕ → List ℕ) (st bt : ℕ) (nonce n : List ℕ) (ns : List (List ℕ))
      → (try_nonces sha256 scrypt algo header st bt nonce (n ∷ ns)).0 ≡ true
        ↔ Meets header st n ⊎ (try_nonces sha256 scrypt algo header st bt nonce ns).0 ≡ true
  unfolding try_nonces
  try_nonces-cons header st bt nonce n ns =
      elim (try_nonce-cases st bt n (hash_big sha256 scrypt algo header n)
        (try_nonces sha256 scrypt algo header st bt nonce ns)) [
          | inl (hash, ok, le, found) ↦ ((λ e. inl (hash, ok, le)), λ m. ap (λ p. p.0) found)
          | inr (none_meets, later) ↦ (
            (λ e. inr (sym (ap (λ p. p.0) later) ∙ e)),
            λ m. elim m [ inl meets ↦ absurd (none_meets meets) | inr e ↦ ap (λ p. p.0) later ∙ e ],
          )
        ]

  module _ {F : Type 0} (quotient : ℕ → F → Option ℕ) where
    -- Where validateShare has a header to hash and a target for the worker, and answers, it accepts the share exactly when the header
    -- hashes to at most the worker's target with the nonce as submitted or with its bytes reversed.
    pub validate_share_iff :
        (job : Job) (w : Work) (nonce : List ℕ) (diff : F) {header : List ℕ → List ℕ}
        {share_target : ℕ} {r : Bool × Bool × List ℕ}
        → share_header sha256 job w ≡ some header
        → quotient (diff1_target algo) diff ≡ some share_target
        → validate_share sha256 scrypt algo quotient job w nonce diff ≡ some r
        → r.0 ≡ true
          ↔ Meets header share_target nonce ⊎ Meets header share_target (hex_reverse_bytes nonce)
    unfolding validate_share check_nonces
    validate_share_iff job w nonce diff {header} {share_target} {r} eh eq e =
        let e' : check_nonces sha256 scrypt algo job nonce (some share_target) (some header)
            ≡ some r =
          rw (eh, eq) at e in
        let (bt, et, er) = >>=-some (nbits_to_target (hex_decode job.nbits).0) _ e' in
        let st : ℕ = share_target in
        let rev : List ℕ = hex_reverse_bytes nonce in
        let (first, first') = try_nonces-cons header st bt nonce nonce (rev ∷ []) in
        let (second, second') = try_nonces-cons header st bt nonce rev [] in
        let same : try_nonces sha256 scrypt algo header st bt nonce (nonce ∷ rev ∷ []) ≡ r = cc in
        (
          (λ ok. elim (first (ap (λ p. p.0) same ∙ ok)) [
            | inl meets ↦ inl meets
            | inr e₂ ↦ elim (second e₂) [
              | inl meets ↦ inr meets
              | inr e₃ ↦ cc (sym (try_nonces-nil header st bt nonce) ∙ e₃)
            ]
          ]),
          λ m. sym (ap (λ p. p.0) same) ∙ elim m [
            | inl meets ↦ first' (inl meets)
            | inr meets ↦ first' (inr (second' (inl meets)))
          ],
        )

    -- What an accepted share has passed.
    pub validate_share_lem :
        (job : Job) (w : Work) (nonce : List ℕ) (diff : F) {is_block : Bool} {n : List ℕ}
        → validate_share sha256 scrypt algo quotient job w nonce diff ≡ some (true, is_block, n)
        → (header : List ℕ → List ℕ) × (st : ℕ) × (target : ℕ) × (hash : ℕ) × share_header sha256
              job w
            ≡ some header
          × nbits_to_target (hex_decode job.nbits).0 ≡ some target
          × hash_big sha256 scrypt algo header n ≡ some hash
          × quotient (diff1_target algo) diff ≡ some st
          × hash ≤ st
          × leb hash target ≡ is_block
    unfolding validate_share check_nonces
    validate_share_lem job w nonce diff {is_block} {n} e =
        elim (Option-cases (share_header sha256 job w)) [
          | inl bad ↦ cc (rw bad at e)
          | inr (header, ok) ↦
              let ns : List (List ℕ) = nonce ∷ hex_reverse_bytes nonce ∷ [] in
              let (st, es, er') = >>=-some (quotient (diff1_target algo) diff) _ (rw ok at e) in
              let (target, et, er) = >>=-some (nbits_to_target (hex_decode job.nbits).0) _ er' in
              let same : try_nonces sha256 scrypt algo header st target nonce ns
                  ≡ (true, is_block, n) =
                cc in
              let (hash, eh, le, flag) = try_nonces_lem header st target nonce ns same in
              (header, st, target, hash, ok, et, eh, es, le, flag)
        ]
