-- ===== src/Hashstore/Downsample/Bounds.antt =====
-- How many points downsample of internal/hashstore/store.go makes of a stretch of time.
use pipool.Base.{
  ℕ, suc, ◌+◌, ◌-◌, ◌*◌, ◌/◌, ◌≤◌, ◌<◌, ◌≡◌, ◌≢◌, refl, sym, ◌∙◌, ap, arith, inl, inr,
}
use pipool.Base.{List, [], ◌∷◌}
use pipool.Base.{◌==◌, ==_iff, length, length-append, Bool-cases}
use pipool.Go.Float.{Float64}
use pipool.Hashstore.Downsample.{
  Sample, Bucket, start_of, bucket_point, flush, next_bucket, add_to_bucket, fill, downsample,
}

module _ {F : Type 0} where
  -- The times lie from `lo` on and before `hi`, and do not go down from `from`.
  abbrev pub Within : ℕ → ℕ → ℕ → List (Sample F) → Type 0
  Within lo hi from [] = Unit
  Within lo hi from (x ∷ xs) =
      (lo ≤ x.time_ms) × (from ≤ x.time_ms) × (x.time_ms < hi) × Within lo hi x.time_ms xs

module _ {F : Type 0} (f64 : Float64 F) (b : ℕ) (mono : (m n : ℕ) → m ≤ n → m / b ≤ n / b)
    (lo hi : ℕ) where
  length-flush : (s : Bucket F) → length (flush f64 b s) ≤ suc (length s.out)
  unfolding flush
  length-flush s =
      ground (arith, length-append s.out (bucket_point f64 b s.bucket_start s.sum s.count ∷ []))

  length-fill :
      (from : ℕ) (xs : List (Sample F)) (s : Bucket F)
      → Within lo hi from xs
      → s.bucket_start ≡ start_of b from
      → from < hi
      → length (flush f64 b (fill f64 b s xs)) + from / b ≤ suc (length s.out) + (hi - 1) / b
  unfolding fill next_bucket add_to_bucket start_of
  length-fill from [] s h at lt = omega (arith, length-flush s, mono from (hi - 1) (omega arith))
  length-fill from (x ∷ xs) s (low, after, high, h) at lt =
      elim (Bool-cases (start_of b x.time_ms == s.bucket_start)) [
        | inl same ↦
            let rest =
              length-fill x.time_ms xs (add_to_bucket f64 b s x) h
                (sym ((==_iff (start_of b x.time_ms) s.bucket_start).0 same)) high in
            rw same (omega (arith, rest, mono from x.time_ms after))
        | inr other ↦
            let empty : Bucket F = record {
              out = flush f64 b s;
              bucket_start = start_of b x.time_ms;
              sum = f64.lit 0 0;
              count = 0;
            } in
            let rest = length-fill x.time_ms xs (add_to_bucket f64 b empty x) h refl high in
            let apart : from / b ≢ x.time_ms / b = λ e.
              let same : start_of b x.time_ms ≡ s.bucket_start = sym (at ∙ ap (λ q. q * b) e) in
              let on = (==_iff (start_of b x.time_ms) s.bucket_start).1 same in cc in
            rw other (omega (arith, rest, apart, mono from x.time_ms after, length-flush s))
      ]

  pub length-downsample :
      (from : ℕ) (xs : List (Sample F))
      → Within lo hi from xs
      → length (downsample f64 b xs) ≤ suc ((hi - 1) / b - lo / b)
  unfolding downsample
  length-downsample from [] h = omega arith
  length-downsample from (x ∷ xs) (low, after, high, h) =
      let start : Bucket F = record {
        out = [];
        bucket_start = start_of b x.time_ms;
        sum = f64.lit 0 0;
        count = 0;
      } in
      omega (
        arith,
        length-fill x.time_ms (x ∷ xs) start (low, omega arith, high, h) refl high,
        mono lo x.time_ms low,
        mono lo (hi - 1) (omega arith),
      )
