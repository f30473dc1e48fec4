-- ===== src/Rpc/Base58/Scripts.antt =====
-- B58CheckDecode and BuildP2PKHScript.
use pipool.Base.{ℕ, zero, suc, ◌-◌, ◌≤◌, ◌≡◌, refl, ap, ◌∙◌, arith, sym, true}
use pipool.Base.{
  List, [], ◌∷◌, ◌++◌, length, take, drop, length-append, length-take, length-drop,
  take-append-drop,
}
use pipool.Base.{append-nil, ◌↔◌, ap₂}
use pipool.Base.Bytes.{fixed_lem, take-append, drop-append}
use pipool.Rpc.Result.{ok, >>=-ok}
use pipool.Rpc.Base58.{b58_decode, same_bytes, b58_check, b58_check_decode, p2pkh_script}
use pipool.Rpc.Base58.{build_p2pkh_script}

same_bytes-take :
    (n : ℕ) (h rest : List ℕ) → n ≤ length h → same_bytes n h (take n h ++ rest) ≡ true
unfolding same_bytes
same_bytes-take zero h rest l = refl
same_bytes-take (suc n) [] rest l = absurd (omega arith)
same_bytes-take (suc n) (a ∷ h) rest l = ground (arith, same_bytes-take n h rest)

same_bytes-eq : (n : ℕ) (h c : List ℕ) → same_bytes n h c ≡ true → length c ≡ n → c ≡ take n h
unfolding same_bytes
same_bytes-eq zero h [] e l = refl
same_bytes-eq zero h (b ∷ c) e l = absurd (omega arith)
same_bytes-eq (suc n) [] c e l = cc
same_bytes-eq (suc n) (a ∷ h) [] e l = cc
same_bytes-eq (suc n) (a ∷ h) (b ∷ c) e l = ground (arith, same_bytes-eq n h c)

same_checksum : (h : List ℕ) → length h ≡ 32 → same_bytes 4 h (take 4 h) ≡ true
same_checksum h l = rw append-nil at (same_bytes-take 4 h [] (omega arith))

module _ (sha256 : List ℕ → List ℕ) where
  abbrev pub checksum : List ℕ → List ℕ
  checksum payload = take 4 (sha256 (sha256 payload))

  -- What the checks accept: a version byte, 20 bytes, any further bytes, and the checksum of these.
  abbrev pub IsChecked : List ℕ → ℕ → List ℕ → Type 0
  IsChecked decoded version hash20 =
      (extra : List ℕ) × (length hash20 ≡ 20)
      × (decoded ≡ (version ∷ (hash20 ++ extra)) ++ checksum (version ∷ (hash20 ++ extra)))

  b58_check-payload :
      (decoded payload : List ℕ) (v : ℕ) (h : List ℕ)
      → payload ≡ take (length decoded - 4) decoded
      → b58_check sha256 decoded ≡ ok (v, h)
      → (25 ≤ length decoded)
        × (same_bytes 4 (sha256 (sha256 payload)) (drop (length decoded - 4) decoded) ≡ true)
        × (rest : List ℕ) × (payload ≡ v ∷ rest)
        × (h ≡ take 20 rest)
  unfolding b58_check
  b58_check-payload decoded [] v h p e = ground arith
  b58_check-payload decoded (b ∷ rest) v h p e =
      let e' = rw (← p) at e in (ground arith, ground arith, rest, ground arith, ground arith)

  take-drop-length : (n : ℕ) (xs : List ℕ) → n ≤ length xs → length (take n xs) ≡ n
  take-drop-length n xs h = omega (arith, length-take n xs)

  accepted :
      (decoded rest : List ℕ) (v : ℕ)
      → 25 ≤ length decoded
      → take (length decoded - 4) decoded ≡ v ∷ rest
      → drop (length decoded - 4) decoded ≡ checksum (v ∷ rest)
      → IsChecked decoded v (take 20 rest)
  accepted decoded rest v big p c = (
    drop 20 rest,
    omega (arith, ap length p, length-take (length decoded - 4) decoded, length-take 20 rest),
    rw (take-append-drop 20 rest)
        (sym (take-append-drop (length decoded - 4) decoded) ∙ ap₂ ◌++◌ p c),
  )

  b58_check_step :
      (decoded rest : List ℕ) (v : ℕ)
      → 25 ≤ length decoded
      → take (length decoded - 4) decoded ≡ v ∷ rest
      → drop (length decoded - 4) decoded ≡ checksum (v ∷ rest)
      → same_bytes 4 (sha256 (sha256 (v ∷ rest))) (checksum (v ∷ rest)) ≡ true
      → b58_check sha256 decoded ≡ ok (v, take 20 rest)
  unfolding b58_check
  b58_check_step decoded rest v big p c same =
      let len : length (v ∷ rest) ≡ length decoded - 4 =
        omega (arith, ap length p, length-take (length decoded - 4) decoded) in
      rw (p, b58_check, c, same) (ground arith)

  checked→ok :
      (v : ℕ) (hash20 extra : List ℕ)
      → ((bs : List ℕ) → length (sha256 bs) ≡ 32)
      → length hash20 ≡ 20
      → let payload = v ∷ (hash20 ++ extra) in
        b58_check sha256 (payload ++ checksum payload) ≡ ok (v, hash20)
  checked→ok v hash20 extra size h =
      let payload : List ℕ = v ∷ (hash20 ++ extra) in
      let ck = checksum payload in
      let len_h = size (sha256 payload) in
      let len_c = length-take 4 (sha256 (sha256 payload)) in
      let at : length (payload ++ ck) - 4 ≡ length payload =
        omega (arith, length-append payload ck) in
      b58_check_step (payload ++ ck) (hash20 ++ extra) v
        (omega (arith, length-append payload ck, length-append hash20 extra))
        (rw at (take-append payload ck (length payload) refl))
        (rw at (drop-append payload ck (length payload) refl))
        (same_checksum (sha256 (sha256 payload)) len_h)
      ∙ ap (λ (t : List ℕ). ok (v, t)) (take-append hash20 extra 20 h)

  -- The checks accept a version byte and 20-byte hash exactly when the decoded bytes are that
  -- version and hash, any number of further bytes, and the first four bytes of the double sha256
  -- of all these (where sha256 returns 32 bytes).
  pub b58_check_iff :
      (decoded : List ℕ) (v : ℕ) (hash20 : List ℕ)
      → ((bs : List ℕ) → length (sha256 bs) ≡ 32)
      → (b58_check sha256 decoded ≡ ok (v, hash20)) ↔ IsChecked decoded v hash20
  b58_check_iff decoded v hash20 size = (
    (λ e.
        let payload = take (length decoded - 4) decoded in
        let (big, same, rest, p, h) = b58_check-payload decoded payload v hash20 refl e in
        let c =
          same_bytes-eq 4 (sha256 (sha256 payload)) (drop (length decoded - 4) decoded) same
            (omega (arith, length-drop (length decoded - 4) decoded)) in
        rw h (accepted decoded rest v big p (rw p at c))),
    (λ (extra, h, d). rw d (checked→ok v hash20 extra size h)),
  )

  decoded_of :
      (addr script : List ℕ)
      → build_p2pkh_script sha256 addr ≡ ok script
      → (version : ℕ) × (hash20 : List ℕ) × (b58_check_decode sha256 addr ≡ ok (version, hash20))
  unfolding build_p2pkh_script
  decoded_of addr script e =
      let ((v, h), ed, rest) = >>=-ok (b58_check_decode sha256 addr) _ e in (v, h, ed)

  built :
      (addr : List ℕ) (version : ℕ) (hash20 : List ℕ)
      → ((bs : List ℕ) → length (sha256 bs) ≡ 32)
      → b58_check_decode sha256 addr ≡ ok (version, hash20)
      → (length hash20 ≡ 20)
        × (build_p2pkh_script sha256 addr
            ≡ ok (0x76 ∷ 0xa9 ∷ 0x14 ∷ (hash20 ++ (0x88 ∷ 0xac ∷ []))))
  unfolding build_p2pkh_script p2pkh_script b58_check_decode
  built addr v h size e =
      let (decoded, ed, ec) = >>=-ok (b58_decode addr) (b58_check sha256) e in
      let (extra, len, d) = (b58_check_iff decoded v h size).0 ec in
      (len, rw (e, len, fixed_lem 20 h len))

  pub build_p2pkh_script_iff :
      (addr script : List ℕ)
      → ((bs : List ℕ) → length (sha256 bs) ≡ 32)
      → (build_p2pkh_script sha256 addr ≡ ok script) ↔ (
          (version : ℕ) × (hash20 : List ℕ) × (b58_check_decode sha256 addr ≡ ok (version, hash20))
          × (length hash20 ≡ 20)
          × (script ≡ 0x76 ∷ 0xa9 ∷ 0x14 ∷ (hash20 ++ (0x88 ∷ 0xac ∷ []))))
  build_p2pkh_script_iff addr script size = (
    (λ e.
        let (v, h, ed) = decoded_of addr script e in
        let (len, es) = built addr v h size ed in
        let same : ok script ≡ ok (0x76 ∷ 0xa9 ∷ 0x14 ∷ (h ++ (0x88 ∷ 0xac ∷ []))) = sym e ∙ es in
        (v, h, ed, len, cc)),
    (λ (v, h, ed, len, d). rw d (built addr v h size ed).1),
  )
