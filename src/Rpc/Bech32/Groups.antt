-- ===== src/Rpc/Bech32/Groups.antt =====
-- One round of the loop of bech32ConvertBits, from 5-bit groups to bytes.
use pipool.Base.{ℕ, zero, suc, ◌+◌, ◌*◌, ◌/◌, ◌%◌, ◌^◌, ◌<◌, ◌≡◌, refl, ◌∙◌, arith}
use pipool.Base.{List, [], ◌∷◌, ◌++◌}
use pipool.Base.Bytes.{IsByte, All, All-append, base_value, base_value-append}
use pipool.Rpc.Bech32.{drain}

-- The state of the loop after groups that stand for the number `value`.
pub record Reads (value : ℕ) (acc bits : ℕ) (result : List ℕ) : Type 0 where
  pub pattern_of : acc ≡ value % 2 ^ 64
  pub few : bits < 8
  pub read : base_value 256 0 result ≡ value / 2 ^ bits
  pub bytes : All IsByte result

-- One round of `drain` from at most 7 bits and a new group.
pub drain_few :
    (acc bits : ℕ) (result : List ℕ)
    → bits < 3
    → drain (bits + 5) 8 acc (bits + 5) result ≡ (result, bits + 5)
unfolding drain
drain_few acc zero result h = refl
drain_few acc (suc zero) result h = refl
drain_few acc (suc (suc zero)) result h = refl
drain_few acc (suc (suc (suc b))) result h = absurd (omega arith)

pub drain_one :
    (acc k : ℕ) (result : List ℕ)
    → k < 5
    → drain (k + 8) 8 acc (k + 8) result ≡ (result ++ (acc / 2 ^ k % 256 % 256 ∷ []), k)
unfolding drain
drain_one acc zero result h = refl
drain_one acc (suc zero) result h = refl
drain_one acc (suc (suc zero)) result h = refl
drain_one acc (suc (suc (suc zero))) result h = refl
drain_one acc (suc (suc (suc (suc zero)))) result h = refl
drain_one acc (suc (suc (suc (suc (suc k))))) result h = absurd (omega arith)

abbrev pub next_acc : ℕ → ℕ → ℕ
next_acc acc v = (acc * 2 ^ 5 % 2 ^ 64 + v) % 2 ^ 64

-- The byte that completes the number read so far.
next_byte :
    (k value v : ℕ)
    → k < 5
    → v < 32
    → value / 2 ^ (k + 3) * 256 + next_acc (value % 2 ^ 64) v / 2 ^ k % 256 % 256
      ≡ (value * 32 + v) / 2 ^ k
next_byte zero value v h hv = omega arith
next_byte (suc zero) value v h hv = omega arith
next_byte (suc (suc zero)) value v h hv = omega arith
next_byte (suc (suc (suc zero))) value v h hv = omega arith
next_byte (suc (suc (suc (suc zero)))) value v h hv = omega arith
next_byte (suc (suc (suc (suc (suc k))))) value v h hv = absurd (omega arith)

same_head : (b value v : ℕ) → b < 3 → v < 32 → value / 2 ^ b ≡ (value * 32 + v) / 2 ^ (b + 5)
same_head zero value v h hv = omega arith
same_head (suc zero) value v h hv = omega arith
same_head (suc (suc zero)) value v h hv = omega arith
same_head (suc (suc (suc b))) value v h hv = absurd (omega arith)

next_pattern : (value v : ℕ) → v < 32 → next_acc (value % 2 ^ 64) v ≡ (value * 32 + v) % 2 ^ 64
next_pattern value v h = omega arith

pub Reads-few :
    (value acc bits v : ℕ) (result : List ℕ)
    → Reads value acc bits result
    → bits < 3
    → v < 32
    → Reads (value * 32 + v) (next_acc acc v) (bits + 5) result
Reads-few value acc bits v result r few hv = record {
  pattern_of = rw (r.pattern_of) (next_pattern value v hv);
  few = omega arith;
  read = r.read ∙ same_head bits value v few hv;
  bytes = r.bytes;
}

pub Reads-one :
    (value acc k v : ℕ) (result : List ℕ)
    → Reads value acc (k + 3) result
    → k < 5
    → v < 32
    → Reads
        (value * 32 + v)
        (next_acc acc v)
        k
        (result ++ (next_acc acc v / 2 ^ k % 256 % 256 ∷ []))
Reads-one value acc k v result r hk hv = record {
  pattern_of = rw (r.pattern_of) (next_pattern value v hv);
  few = omega arith;
  read = base_value-append 256 0 result _ ∙ rw (r.read, r.pattern_of) (next_byte k value v hk hv);
  bytes = All-append IsByte result _ r.bytes (omega arith, tt);
}
