-- ===== src/Hashstore/Store/Points.antt =====
-- What compact of internal/hashstore/store.go leaves of a coin, and how many points that is.
use pipool.Base.{ℕ, suc, ◌-◌, ◌/◌, ◌≤◌, ◌≡◌, refl, arith, inl, inr}
use pipool.Base.{List, [], ◌∷◌, ◌++◌, ◌&&◌}
use pipool.Base.{ltb, leb, length, Bool-cases, by_test, if◌then◌else◌}
use pipool.Go.Float.{Float64}
use pipool.Hashstore.Downsample.{Sample, downsample}
use pipool.Hashstore.Store.{Zones, split_zones, merge_zones, compact_samples, minutes, hours}
use pipool.Hashstore.Downsample.Bounds.{Within, length-downsample}
use pipool.Hashstore.Store.Window.{Ordered, since, drop-first_from}

module _ {F : Type 0} where
  -- The samples from `lo` on and before `hi`.
  abbrev pub between : ℕ → ℕ → List (Sample F) → List (Sample F)
  between lo hi [] = []
  between lo hi (x ∷ xs) =
      let rest = between lo hi xs in if leb lo x.time_ms && ltb x.time_ms hi then x ∷ rest else rest

  module _ (now : ℕ) where
    abbrev zones_of : List (Sample F) → Zones F
    zones_of sl = record {
      zone30d = between (now - hours 720) (now - hours 168) sl;
      zone7d = between (now - hours 168) (now - hours 24) sl;
      zone24h = between (now - hours 24) (now - hours 1) sl;
      zone_raw = since (now - hours 1) sl;
    }

    split_zones-since :
        (sl : List (Sample F)) → split_zones now (since (now - hours 720) sl) ≡ zones_of sl
    unfolding split_zones
    split_zones-since [] = refl
    split_zones-since (x ∷ sl) = elim (Bool-cases (leb (now - hours 720) x.time_ms)) [
      | inl here ↦ rw (here, split_zones-since sl) (ground arith)
      | inr old ↦ ground (arith, split_zones-since sl)
    ]

  module _ (lo hi : ℕ) where
    Within-lower : (k m : ℕ) (xs : List (Sample F)) → k ≤ m → Within lo hi m xs → Within lo hi k xs
    Within-lower k m [] le h = tt
    Within-lower k m (x ∷ xs) le (low, after, high, h) = (low, omega arith, high, h)

    between-Within :
        (k : ℕ) (xs : List (Sample F)) → Ordered k xs → Within lo hi k (between lo hi xs)
    between-Within k [] h = tt
    between-Within k (x ∷ xs) (after, h) =
        let rest : Within lo hi x.time_ms (between lo hi xs) = between-Within x.time_ms xs h in
        by_test (Within lo hi k) (leb lo x.time_ms && ltb x.time_ms hi)
          (λ on. (ground arith, after, ground arith, rest))
          (λ off. Within-lower k x.time_ms (between lo hi xs) after rest)

compact_samples-zones :
    {F : Type 0} (f64 : Float64 F) (now : ℕ) (sl : List (Sample F))
    → Ordered 0 sl
    → compact_samples f64 now sl ≡ merge_zones f64 (zones_of now sl)
unfolding compact_samples merge_zones downsample
compact_samples-zones f64 now [] h = refl
compact_samples-zones f64 now (x ∷ sl) h =
    rw (drop-first_from (now - hours 720) 0 (x ∷ sl) h, split_zones-since now (x ∷ sl)) refl

module _ {F : Type 0} (f64 : Float64 F) (now : ℕ) (sl : List (Sample F)) (h : Ordered 0 sl) where
  -- The number of points that a zone becomes.
  length-zone :
      (b lo hi n : ℕ)
      → ((i j : ℕ) → i ≤ j → i / b ≤ j / b)
      → (hi - 1) / b - lo / b ≤ n
      → length (downsample f64 b (between lo hi sl)) ≤ suc n
  length-zone b lo hi n mono le =
      omega (
        arith,
        length-downsample f64 b mono lo hi 0 (between lo hi sl) (between-Within lo hi 0 sl h),
      )

  -- Where the times of a coin's samples do not go down, what compact leaves of them is, in this order:
  -- the samples of the days 30 to 7, 7 to 1, and of the hours 24 to 1 before now, each downsampled to
  -- 15, 5 and 1 minutes, which are at most 2209, 1729 and 1381 points, and the samples since then as they are.
  pub compact_samples_lem :
      (compact_samples f64 now sl
        ≡ downsample f64 (minutes 15) (between (now - hours 720) (now - hours 168) sl)
          ++ (downsample f64 (minutes 5) (between (now - hours 168) (now - hours 24) sl)
              ++ (downsample f64 (minutes 1) (between (now - hours 24) (now - hours 1) sl)
                  ++ since (now - hours 1) sl)))
      × (length (downsample f64 (minutes 15) (between (now - hours 720) (now - hours 168) sl))
          ≤ 2209)
      × (length (downsample f64 (minutes 5) (between (now - hours 168) (now - hours 24) sl)) ≤ 1729)
      × (length (downsample f64 (minutes 1) (between (now - hours 24) (now - hours 1) sl)) ≤ 1381)
  unfolding merge_zones
  compact_samples_lem = (
    compact_samples-zones f64 now sl h,
    length-zone (minutes 15) (now - hours 720) (now - hours 168) 2208 (λ i j le. omega arith)
        (omega arith),
    length-zone (minutes 5) (now - hours 168) (now - hours 24) 1728 (λ i j le. omega arith)
        (omega arith),
    length-zone (minutes 1) (now - hours 24) (now - hours 1) 1380 (λ i j le. omega arith)
        (omega arith),
  )
