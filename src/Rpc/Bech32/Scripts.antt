-- ===== src/Rpc/Bech32/Scripts.antt =====
-- decodeBech32 and BuildSegwitScript.
use pipool.Base.{
  ℕ, suc, ◌+◌, ◌-◌, ◌%◌, ◌*◌, ◌<◌, ◌≤◌, ◌≡◌, ◌≢◌, refl, ap, ◌∙◌, arith, sym, true, false, ◌⊎◌, inl,
  inr,
}
use pipool.Base.{List, [], ◌∷◌, ◌++◌, length, take, drop, length-take, length-drop}
use pipool.Base.{
  none, some, Option-cases, take-append-drop, if◌then◌else◌, ltb, ◌||◌, Bool-cases, ◌==◌, map,
}
use pipool.Base.Bytes.{All, base_value}
use native.Mathlib.Numerals.{add-one}
use pipool.Go.Strings.{index_byte, index_byte-lt, last_index, to_lower}
use pipool.Rpc.Result.{ok, ◌>>=◌, >>=-ok}
use pipool.Rpc.Bech32.{
  bech32_charset, bech32_verify_checksum, charset_values, decode_at, decode_bech32,
}
use pipool.Rpc.Bech32.{bech32_convert_bits, segwit_script, witness_script, build_segwit_script}
use pipool.Rpc.Bech32.ConvertBits.{Converts, bech32_convert_bits-Converts}

charset_step :
    (c : ℕ) (s : List ℕ) (d : ℕ)
    → index_byte bech32_charset c ≡ some d
    → charset_values (c ∷ s) ≡ (charset_values s >>= λ rest. ok (d ∷ rest))
unfolding charset_values
charset_step c s d e = rw (e, charset_values)

charset_bad :
    (c : ℕ) (s ds : List ℕ) → index_byte bech32_charset c ≡ none → charset_values (c ∷ s) ≢ ok ds
unfolding charset_values
charset_bad c s ds e = rw (e, charset_values) (λ p. cc)

-- One 5-bit group for each character.
pub charset_values-groups :
    (s ds : List ℕ) → charset_values s ≡ ok ds → (length ds ≡ length s) × All (λ d. d < 32) ds
charset_values-groups [] ds e =
    let same : [] ≡ ds = unfold charset_values in cc in rw (← same) (refl, tt)
charset_values-groups (c ∷ s) ds e = elim (Option-cases (index_byte bech32_charset c)) [
  | inl bad ↦ absurd (charset_bad c s ds bad e)
  | inr (d, ed) ↦
      let e' : (charset_values s >>= λ rest. ok (d ∷ rest)) ≡ ok ds =
        rw (charset_step c s d ed) at e in
      let (rest, er, es) = >>=-ok (charset_values s) (λ rest. ok (d ∷ rest)) e' in
      let (len, small) = charset_values-groups s rest er in
      let same : d ∷ rest ≡ ds = cc in
      rw (← same) (ap suc len, (index_byte-lt bech32_charset c ed, small))
]

-- What decoding keeps: the text is the prefix, a `1`, and the characters of the groups and of six
-- more, whose checksum holds.
pub record Decodes (lower hrp groups : List ℕ) : Type 0 where
  pub text : List ℕ
  pub checksum : List ℕ
  pub split : lower ≡ hrp ++ (b'1' ∷ text)
  pub some_hrp : 1 ≤ length hrp
  pub six : length checksum ≡ 6
  pub values : charset_values text ≡ ok (groups ++ checksum)
  pub verified : bech32_verify_checksum hrp (groups ++ checksum) ≡ true

last_index-here :
    (c i b : ℕ) (s : List ℕ) (j : ℕ)
    → last_index c (suc i) s ≡ none
    → last_index c i (b ∷ s) ≡ some j
    → (b ≡ c) × (j ≡ i)
unfolding last_index
last_index-here c i b s j n e = ground arith

last_index-there :
    (c i b : ℕ) (s : List ℕ) (j m : ℕ)
    → last_index c (suc i) s ≡ some m
    → last_index c i (b ∷ s) ≡ some j
    → j ≡ m
unfolding last_index
last_index-there c i b s j m n e = ground arith

-- The place of the last `c` splits the text round it.
last_index-split :
    (c i : ℕ) (s : List ℕ) (j : ℕ)
    → last_index c i s ≡ some j
    → (k : ℕ) × (j ≡ i + k) × (s ≡ take k s ++ (c ∷ drop (suc k) s))
last_index-split c i [] j e = unfold last_index in cc
last_index-split c i (b ∷ s) j e = elim (Option-cases (last_index c (suc i) s)) [
  | inl n ↦
      let (here, at) = last_index-here c i b s j n e in (0, omega arith, ap (λ (x : ℕ). x ∷ s) here)
  | inr (m, em) ↦
      let (k, ek, split) = last_index-split c (suc i) s m em in
      let same = last_index-there c i b s j m em e in
      (suc k, omega (arith, same, ek), ap (λ (t : List ℕ). b ∷ t) split)
]

decode_at-parts :
    (lower : List ℕ) (pos : ℕ) (hrp groups : List ℕ)
    → decode_at lower pos ≡ ok (hrp, groups)
    → (1 ≤ pos)
      × (pos + 7 ≤ length lower)
      × (decoded : List ℕ) × (charset_values (drop (pos + 1) lower) ≡ ok decoded)
      × (bech32_verify_checksum (take pos lower) decoded ≡ true)
      × (hrp ≡ take pos lower)
      × (groups ≡ take (length decoded - 6) decoded)
unfolding decode_at
decode_at-parts lower pos hrp groups e =
    elim (Bool-cases (ltb pos 1 || ltb (length lower) (pos + 7))) [
      | inl bad ↦ cc (rw bad at e)
      | inr fine ↦
          let (decoded, ed, ef) = >>=-ok (charset_values (drop (pos + 1) lower)) _ (rw fine at e) in
          (ground arith, ground arith, decoded, ed, ground arith, ground arith, ground arith)
    ]

decode_bech32-pos :
    (addr hrp groups : List ℕ)
    → decode_bech32 addr ≡ ok (hrp, groups)
    → (pos : ℕ) × (last_index b'1' 0 (map to_lower addr) ≡ some pos)
      × (decode_at (map to_lower addr) pos ≡ ok (hrp, groups))
unfolding decode_bech32
decode_bech32-pos addr hrp groups e = elim (Option-cases (last_index b'1' 0 (map to_lower addr))) [
  | inl n ↦ ground (arith, n)
  | inr (pos, ep) ↦ (pos, ep, ground (arith, ep))
]

-- A decoded address is, in lower case, a nonempty prefix, a `1`, and characters of the alphabet:
-- those of the returned groups and six more, and the checksum over prefix, groups and these holds.
pub decode_bech32-Decodes :
    (addr hrp groups : List ℕ)
    → decode_bech32 addr ≡ ok (hrp, groups)
    → Decodes (map to_lower addr) hrp groups
decode_bech32-Decodes addr hrp groups e =
    let lower = map to_lower addr in
    let (pos, ep, ed) = decode_bech32-pos addr hrp groups e in
    let (k, ek, split) = last_index-split b'1' 0 lower pos ep in
    let at : k ≡ pos = omega arith in
    let (lo, hi, decoded, values, verified, eh, eg) = decode_at-parts lower pos hrp groups ed in
    let (len, small) = charset_values-groups (drop (pos + 1) lower) decoded values in
    let whole = take-append-drop (length decoded - 6) decoded in
    record {
      text = drop (pos + 1) lower;
      checksum = drop (length decoded - 6) decoded;
      split = rw (eh, add-one) (rw at at split);
      some_hrp = rw eh (omega (arith, length-take pos lower));
      six =
          omega (arith, length-drop (length decoded - 6) decoded, length-drop (pos + 1) lower, len);
      values = rw (eg, whole) values;
      verified = rw (eg, whole, eh) verified;
    }

segwit_script-length :
    (version : ℕ) (program : List ℕ)
    → (length program ≡ 20) ⊎ (length program ≡ 32)
    → segwit_script version program
      ≡ (if version == 0 then 0 else 0x50 + version) ∷ length program ∷ program
unfolding segwit_script
segwit_script-length version program size =
    let short : length program % 256 ≡ length program = omega arith in
    ap (λ (n : ℕ). (if version == 0 then 0 else 0x50 + version) ∷ n ∷ program) short

witness_script-ok :
    (groups script : List ℕ)
    → witness_script groups ≡ ok script
    → (version : ℕ) × (rest : List ℕ) × (program : List ℕ) × (groups ≡ version ∷ rest)
      × (version ≤ 16)
      × ((length program ≡ 20) ⊎ (length program ≡ 32))
      × (script ≡ (if version == 0 then 0 else 0x50 + version) ∷ length program ∷ program)
      × (bech32_convert_bits rest 5 8 false ≡ ok program)
unfolding witness_script
witness_script-ok [] script e = cc
witness_script-ok (version ∷ rest) script e = elim (Bool-cases (ltb 16 version)) [
  | inl big ↦ cc (rw big at e)
  | inr small ↦
      let (program, ep, em) = >>=-ok (bech32_convert_bits rest 5 8 false) _ (rw small at e) in
      let size : (length program ≡ 20) ⊎ (length program ≡ 32) = ground arith in
      let same : segwit_script version program ≡ script = ground arith in
      (
        version,
        rest,
        program,
        refl,
        ground arith,
        size,
        sym same ∙ segwit_script-length version program size,
        ep,
      )
]

-- An address gets a script only if it decodes to a witness version of at most 16 and groups that
-- convert to a program of 20 or 32 bytes. The script is then the opcode of the version, the length,
-- and the program, and the program is the number that the groups stand for, but for fewer than five
-- zero bits at the end.
pub build_segwit_script-ok :
    (addr script : List ℕ)
    → build_segwit_script addr ≡ ok script
    → (hrp : List ℕ) × (version : ℕ) × (groups : List ℕ) × (program : List ℕ) × (decode_bech32 addr
        ≡ ok (hrp, version ∷ groups))
      × (version ≤ 16)
      × ((length program ≡ 20) ⊎ (length program ≡ 32))
      × (script ≡ (if version == 0 then 0 else 0x50 + version) ∷ length program ∷ program)
      × Converts (base_value 32 0 groups) (5 * length groups) program
unfolding build_segwit_script
build_segwit_script-ok addr script e =
    let ((hrp, groups), ed, ew) = >>=-ok (decode_bech32 addr) _ e in
    let (version, rest, program, eg, small, size, made, conv) =
      witness_script-ok groups script ew in
    (
      hrp,
      version,
      rest,
      program,
      rw (← eg) ed,
      small,
      size,
      made,
      bech32_convert_bits-Converts rest program conv,
    )
