-- ===== src/Hashstore/Downsample/Runs.antt =====
-- downsample of internal/hashstore/store.go, against the means of the groups that share a bucket.
use pipool.Base.{ℕ, suc, ◌+◌, ◌<◌, ◌≡◌, ◌≢◌, refl, sym, arith}
use pipool.Base.{List, [], ◌∷◌, ◌++◌, map, append-nil, append_assoc}
use pipool.Base.{==_iff, length}
use pipool.Base.Bytes.{All}
use pipool.Go.Float.{Float64}
use pipool.Hashstore.Downsample.{
  Sample, Bucket, start_of, bucket_point, flush, next_bucket, add_to_bucket, fill, downsample,
}

module _ {F : Type 0} where
  -- The next sample falls into another bucket.
  abbrev pub StartsElse : ℕ → ℕ → List (Sample F) → Type 0
  StartsElse b q [] = Unit
  StartsElse b q (x ∷ xs) = start_of b x.time_ms ≢ q

  -- The samples, in their order, are groups of samples that share a bucket, and two groups that follow
  -- each other do not.
  pub data Grouped (b : ℕ) : List (Sample F) → List (List (Sample F)) → Type 0 where
    done : Grouped b [] []
    group :
        (x : Sample F) (g rest : List (Sample F)) (gs : List (List (Sample F)))
        → All (λ y. start_of b y.time_ms ≡ start_of b x.time_ms) g
        → StartsElse b (start_of b x.time_ms) rest
        → Grouped b rest gs
        → Grouped b (x ∷ (g ++ rest)) ((x ∷ g) ∷ gs)

module _ {F : Type 0} (f64 : Float64 F) (b : ℕ) where
  abbrev pub sum_khs : F → List (Sample F) → F
  sum_khs sum [] = sum
  sum_khs sum (x ∷ xs) = sum_khs (f64.add sum x.khs) xs

  -- The point of a group: the mean of its hashrates, in the middle of its bucket.
  abbrev pub group_point : List (Sample F) → Sample F
  group_point [] = bucket_point f64 b 0 (f64.lit 0 0) 0
  group_point (x ∷ g) =
      bucket_point f64 b (start_of b x.time_ms) (sum_khs (f64.lit 0 0) (x ∷ g)) (length (x ∷ g))

  fill-cons :
      (s : Bucket F) (x : Sample F) (xs : List (Sample F))
      → fill f64 b s (x ∷ xs)
        ≡ fill f64 b (add_to_bucket f64 b (next_bucket f64 b s (start_of b x.time_ms)) x) xs
  unfolding fill
  fill-cons s x xs = refl

  next_bucket-same : (s : Bucket F) (q : ℕ) → q ≡ s.bucket_start → next_bucket f64 b s q ≡ s
  unfolding next_bucket
  next_bucket-same s q h = ground (arith, ==_iff q s.bucket_start)

  -- A sample of another bucket.
  next_bucket-other :
      (s : Bucket F) (q : ℕ)
      → q ≢ s.bucket_start
      → next_bucket f64 b s q
        ≡ record { out = flush f64 b s; bucket_start = q; sum = f64.lit 0 0; count = 0 }
  unfolding next_bucket
  next_bucket-other s q h = ground (arith, ==_iff q s.bucket_start)

  -- Samples of the present bucket.
  fill-same :
      (g rest : List (Sample F)) (s : Bucket F)
      → All (λ y. start_of b y.time_ms ≡ s.bucket_start) g
      → fill f64 b s (g ++ rest)
        ≡ fill f64 b (record s { sum = sum_khs s.sum g; count = s.count + length g }) rest
  unfolding add_to_bucket
  fill-same [] rest s h = let e : s.count + 0 ≡ s.count = omega arith in rw e refl
  fill-same (x ∷ g) rest s (here, h) =
      let e : s.count + suc (length g) ≡ suc s.count + length g = omega arith in
      rw (fill-cons s x (g ++ rest), next_bucket-same s (start_of b x.time_ms) here, e)
        (fill-same g rest (add_to_bucket f64 b s x) h)

  flush-counted :
      (s : Bucket F)
      → 0 < s.count
      → flush f64 b s ≡ s.out ++ (bucket_point f64 b s.bucket_start s.sum s.count ∷ [])
  unfolding flush
  flush-counted s some_count = ground arith

  abbrev empty : List (Sample F) → ℕ → Bucket F
  empty out q = record { out = out; bucket_start = q; sum = f64.lit 0 0; count = 0 }

  abbrev filled : List (Sample F) → Sample F → List (Sample F) → Bucket F
  filled out x g = record {
    out = out;
    bucket_start = start_of b x.time_ms;
    sum = sum_khs (f64.lit 0 0) (x ∷ g);
    count = 0 + length (x ∷ g);
  }

  fill-head :
      (out : List (Sample F)) (x : Sample F) (g rest : List (Sample F))
      → All (λ y. start_of b y.time_ms ≡ start_of b x.time_ms) g
      → fill f64 b (add_to_bucket f64 b (empty out (start_of b x.time_ms)) x) (g ++ rest)
        ≡ fill f64 b (filled out x g) rest
  unfolding add_to_bucket
  fill-head out x g rest same =
      let e : 0 + suc (length g) ≡ 1 + length g = omega arith in
      rw e (fill-same g rest (add_to_bucket f64 b (empty out (start_of b x.time_ms)) x) same)

  flush-filled :
      (out : List (Sample F)) (x : Sample F) (g rest : List (Sample F))
      → flush f64 b (filled out x g) ++ rest ≡ out ++ (group_point (x ∷ g) ∷ rest)
  flush-filled out x g rest =
      let e : 0 + suc (length g) ≡ suc (length g) = omega arith in
      rw (flush-counted (filled out x g) (omega arith), e)
        (append_assoc out (group_point (x ∷ g) ∷ []) rest)

  flush-fill :
      (s : Bucket F) (rest : List (Sample F)) (gs : List (List (Sample F)))
      → Grouped b rest gs
      → StartsElse b s.bucket_start rest
      → flush f64 b (fill f64 b s rest) ≡ flush f64 b s ++ map group_point gs
  flush-fill s _ _ done other = unfold fill in sym (append-nil _)
  flush-fill s _ _ (group x g rest gs same turns more) other =
      let q : ℕ = start_of b x.time_ms in
      let out : List (Sample F) = flush f64 b s in
      rw
        (
          fill-cons s x (g ++ rest),
          next_bucket-other s q other,
          fill-head out x g rest same,
          flush-fill (filled out x g) rest gs more turns,
        )
        (flush-filled out x g (map group_point gs))

  -- Where samples are groups that share a bucket, downsample makes one point of each group, in their
  -- order: the mean of the group's hashrates, at the middle of its bucket.
  pub downsample-Grouped :
      (samples : List (Sample F)) (gs : List (List (Sample F)))
      → Grouped b samples gs
      → downsample f64 b samples ≡ map group_point gs
  unfolding downsample
  downsample-Grouped _ _ done = refl
  downsample-Grouped _ _ (group x g rest gs same turns more) =
      rw
        (
          fill-same (x ∷ g) rest (empty [] (start_of b x.time_ms)) (refl, same),
          flush-fill (filled [] x g) rest gs more turns,
        )
        (flush-filled [] x g (map group_point gs))
