-- ===== src/Hashstore/Downsample.antt =====
-- internal/hashstore/store.go: Sample, and downsample. A time is a number of milliseconds.
pub mod Runs
pub mod Bounds
use pipool.Base.{ℕ, suc, ◌+◌, ◌*◌, ◌/◌, List, [], ◌∷◌, ◌++◌, ltb, ◌==◌, if◌then◌else◌}
use pipool.Go.Float.{Float64}

pub record Sample (F : Type 0) : Type 0 where
  pub khs : F
  pub time_ms : ℕ

-- What downsample keeps in its loop: out, bucketStart, sum and count.
pub record Bucket (F : Type 0) : Type 0 where
  pub out : List (Sample F)
  pub bucket_start : ℕ
  pub sum : F
  pub count : ℕ

-- `(t / bucketMS) * bucketMS`
unfoldable pub start_of : ℕ → ℕ → ℕ
start_of bucket_ms t = (t / bucket_ms) * bucket_ms

module _ {F : Type 0} (f64 : Float64 F) (bucket_ms : ℕ) where
  unfoldable pub bucket_point : ℕ → F → ℕ → Sample F
  bucket_point bucket_start sum count = record {
    khs = f64.div sum (f64.lit count 0);
    time_ms = bucket_start + bucket_ms / 2;
  }

  unfoldable pub flush : Bucket F → List (Sample F)
  flush s =
      if ltb 0 s.count then s.out ++ (bucket_point s.bucket_start s.sum s.count ∷ []) else s.out

  -- The bucket that the next sample falls into: the present one, or an empty one after a flush.
  unfoldable pub next_bucket : Bucket F → ℕ → Bucket F
  next_bucket s b =
      if b == s.bucket_start
      then s
      else record { out = flush s; bucket_start = b; sum = f64.lit 0 0; count = 0 }

  unfoldable pub add_to_bucket : Bucket F → Sample F → Bucket F
  add_to_bucket s x = record s { sum = f64.add s.sum x.khs; count = suc s.count }

  unfoldable pub fill : Bucket F → List (Sample F) → Bucket F
  fill s [] = s
  fill s (x ∷ samples) =
      fill (add_to_bucket (next_bucket s (start_of bucket_ms x.time_ms)) x) samples

  unfoldable pub downsample : List (Sample F) → List (Sample F)
  downsample [] = []
  downsample (x ∷ samples) = flush (
      fill
        (record {
          out = [];
          bucket_start = start_of bucket_ms x.time_ms;
          sum = f64.lit 0 0;
          count = 0;
        })
        (x ∷ samples))
