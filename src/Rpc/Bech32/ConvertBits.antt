-- ===== src/Rpc/Bech32/ConvertBits.antt =====
-- bech32ConvertBits from 5-bit groups to bytes, as both address decoders call it.
use pipool.Base.{
  ℕ, zero, suc, ◌+◌, ◌-◌, ◌*◌, ◌/◌, ◌%◌, ◌^◌, ◌<◌, ◌≡◌, refl, ◌∙◌, arith, false, sym, dec_lt,
}
use mathlib.Core.Path.{subst}
use pipool.Base.{List, [], ◌∷◌, ◌++◌, length, length-append}
use pipool.Base.Bytes.{IsByte, All, base_value}
use pipool.Rpc.Result.{Result, ok, ◌>>=◌, >>=-ok}
use pipool.Rpc.Bech32.Groups.{Reads, drain_few, drain_one, next_acc, Reads-few, Reads-one}
use pipool.Rpc.Bech32.{convert_loop, convert_end, bech32_convert_bits}

-- The number of the groups is that of the bytes, shifted by fewer than five zero bits.
pub record Converts (value : ℕ) (bits : ℕ) (out : List ℕ) : Type 0 where
  pub pad : ℕ
  pub short : pad < 5
  pub size : 8 * length out + pad ≡ bits
  pub number : base_value 256 0 out * 2 ^ pad ≡ value
  pub all_bytes : All IsByte out

convert_end-ok :
    (acc bits : ℕ) (result out : List ℕ)
    → convert_end 5 8 false result acc bits ≡ ok out
    → (bits < 5) × (acc * 2 ^ (8 - bits) % 2 ^ 64 % 2 ^ 8 ≡ 0) × (result ≡ out)
unfolding convert_end
convert_end-ok acc bits result out e = ground arith

exact_shift :
    (k value : ℕ)
    → k < 5
    → value % 2 ^ 64 * 2 ^ (8 - k) % 2 ^ 64 % 2 ^ 8 ≡ 0
    → value / 2 ^ k * 2 ^ k ≡ value
exact_shift zero value h e = omega arith
exact_shift (suc zero) value h e = omega arith
exact_shift (suc (suc zero)) value h e = omega arith
exact_shift (suc (suc (suc zero))) value h e = omega arith
exact_shift (suc (suc (suc (suc zero)))) value h e = omega arith
exact_shift (suc (suc (suc (suc (suc k))))) value h e = absurd (omega arith)

convert_end-Converts :
    (value acc bits : ℕ) (result out : List ℕ)
    → Reads value acc bits result
    → convert_end 5 8 false result acc bits ≡ ok out
    → Converts value (8 * length result + bits) out
convert_end-Converts value acc bits result out r e =
    let (short, zeros, same) = convert_end-ok acc bits result out e in
    rw (← same) (record {
      pad = bits;
      short = short;
      size = refl;
      number = rw (r.read) (exact_shift bits value short (rw (r.pattern_of) at zeros));
      all_bytes = r.bytes;
    })

-- `drain` after a group, on the two cases.
convert_step_few :
    (v acc bits : ℕ) (values result : List ℕ)
    → v < 32
    → bits < 3
    → convert_loop 5 8 (v ∷ values) acc bits result
      ≡ convert_loop 5 8 values (next_acc acc v) (bits + 5) result
unfolding convert_loop
convert_step_few v acc bits values result hv hb =
    ground (arith, drain_few (next_acc acc v) bits result hb)

convert_step_one :
    (v acc k : ℕ) (values result : List ℕ)
    → v < 32
    → k < 5
    → convert_loop 5 8 (v ∷ values) acc (k + 3) result
      ≡ convert_loop 5 8 values
          (next_acc acc v)
          k
          (result ++ (next_acc acc v / 2 ^ k % 256 % 256 ∷ []))
unfolding convert_loop
convert_step_one v acc k values result hv hk =
    ground (arith, drain_one (next_acc acc v) k result hk)

convert_loop_value :
    (v acc bits : ℕ) (values result : List ℕ) (st : List ℕ × ℕ × ℕ)
    → convert_loop 5 8 (v ∷ values) acc bits result ≡ ok st
    → v < 32
unfolding convert_loop
convert_loop_value v acc bits values result st e = ground arith

-- The loop and the final test, from any state that reads `value`.
rest_of : List ℕ → ℕ → ℕ → List ℕ → Result (List ℕ)
rest_of values acc bits result =
    convert_loop 5 8 values acc bits result >>= λ (r, a, b). convert_end 5 8 false r a b

rest_of_value :
    (v acc bits : ℕ) (values result out : List ℕ)
    → rest_of (v ∷ values) acc bits result ≡ ok out
    → v < 32
unfolding rest_of
rest_of_value v acc bits values result out e =
    let (st, e', f) = >>=-ok (convert_loop 5 8 (v ∷ values) acc bits result) _ e in
    convert_loop_value v acc bits values result st e'

rest_of_few :
    (v acc bits : ℕ) (values result : List ℕ)
    → v < 32
    → bits < 3
    → rest_of (v ∷ values) acc bits result ≡ rest_of values (next_acc acc v) (bits + 5) result
unfolding rest_of
rest_of_few v acc bits values result hv hb = rw (convert_step_few v acc bits values result hv hb)

rest_of_one :
    (v acc k : ℕ) (values result : List ℕ)
    → v < 32
    → k < 5
    → rest_of (v ∷ values) acc (k + 3) result
      ≡ rest_of values (next_acc acc v) k (result ++ (next_acc acc v / 2 ^ k % 256 % 256 ∷ []))
unfolding rest_of
rest_of_one v acc k values result hv hk = rw (convert_step_one v acc k values result hv hk)

rest_of_nil :
    (acc bits : ℕ) (result : List ℕ)
    → rest_of [] acc bits result ≡ convert_end 5 8 false result acc bits
unfolding rest_of convert_loop
rest_of_nil acc bits result = refl

Converts-eq : {value m n : ℕ} {out : List ℕ} → m ≡ n → Converts value m out → Converts value n out
Converts-eq e c = rw e at c

rest_of-Converts :
    (values : List ℕ) (value acc bits : ℕ) (result out : List ℕ)
    → Reads value acc bits result
    → rest_of values acc bits result ≡ ok out
    → Converts (base_value 32 value values) (8 * length result + bits + 5 * length values) out
rest_of-Converts [] value acc bits result out r e =
    Converts-eq (omega arith)
      (convert_end-Converts value acc bits result out r (rw (rest_of_nil acc bits result) at e))
rest_of-Converts (v ∷ values) value acc bits result out r e =
    let hv = rest_of_value v acc bits values result out e in
    elim (dec_lt bits 3) [
      | yes few ↦ Converts-eq (omega arith) (
          rest_of-Converts values (value * 32 + v) (next_acc acc v) (bits + 5) result out
            (Reads-few value acc bits v result r few hv)
            (rw (rest_of_few v acc bits values result hv few) at e))
      | no many ↦
          let k = bits - 3 in
          let at_k : bits ≡ k + 3 = omega arith in
          let hk : k < 5 = omega (arith, r.few) in
          let byte = next_acc acc v / 2 ^ k % 256 % 256 in
          Converts-eq (omega (arith, length-append result (byte ∷ []))) (
            rest_of-Converts values (value * 32 + v) (next_acc acc v) k (result ++ (byte ∷ [])) out
              (Reads-one value acc k v result (subst (λ b. Reads value acc b result) at_k r) hk hv)
              (sym (rest_of_one v acc k values result hv hk)
                ∙ subst (λ b. rest_of (v ∷ values) acc b result ≡ ok out) at_k e))
    ]

-- What 5-bit groups convert to, when they convert without padding: bytes of the same number, but
-- for fewer than five bits at the end, which are zero.
pub bech32_convert_bits-Converts :
    (values out : List ℕ)
    → bech32_convert_bits values 5 8 false ≡ ok out
    → Converts (base_value 32 0 values) (5 * length values) out
unfolding bech32_convert_bits
bech32_convert_bits-Converts values out e = Converts-eq (omega arith) (
    rest_of-Converts values 0 0 0 [] out
      (record { pattern_of = refl; few = omega arith; read = refl; bytes = tt })
      (unfold rest_of in e))
