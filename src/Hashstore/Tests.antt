-- ===== src/Hashstore/Tests.antt =====
-- The history of hashrates at work on small inputs.
use pipool.Base.{ℕ, ◌≡◌, ◌≤◌, refl, arith, List, [], ◌∷◌, ◌++◌, none, map, length}
use pipool.Go.Search.{search, search_loop}
use pipool.Go.Strings.{codes, str_eq}
use pipool.Toy.{whole}
use pipool.Hashstore.Downsample.{
  Sample, start_of, bucket_point, flush, next_bucket, add_to_bucket, fill, downsample,
}
use pipool.Hashstore.Downsample.Runs.{Grouped, group, done, group_point, downsample-Grouped}
use pipool.Hashstore.Store.{
  compact_samples, split_zones, merge_zones, first_from, reached, query, new_store, minutes,
}
use pipool.Hashstore.Store.Window.{since, add_all, query-add_all}
use pipool.Hashstore.Store.Points.{between, compact_samples_lem}

abbrev ltc : List ℕ
ltc = codes "LTC"

abbrev at : ℕ → ℕ → Sample ℕ
at khs time_ms = record { khs = khs; time_ms = time_ms }

-- Two samples of one minute, and one of the next.
abbrev readings : List (Sample ℕ)
readings = at 4 60000 ∷ at 8 75000 ∷ at 5 120000 ∷ []

abbrev groups : List (List (Sample ℕ))
groups = (at 4 60000 ∷ at 8 75000 ∷ []) ∷ (at 5 120000 ∷ []) ∷ []

readings-Grouped : Grouped 60000 readings groups
unfolding start_of
readings-Grouped =
    group (at 4 60000) (at 8 75000 ∷ []) (at 5 120000 ∷ []) _ (refl, tt) (omega arith)
      (group (at 5 120000) [] [] [] tt tt done)

downsample-Grouped_example : downsample whole 60000 readings ≡ map (group_point whole 60000) groups
downsample-Grouped_example = downsample-Grouped whole 60000 readings groups readings-Grouped

downsample-test : downsample whole 60000 readings ≡ at 6 90000 ∷ at 5 150000 ∷ []
unfolding downsample start_of bucket_point flush next_bucket add_to_bucket fill
downsample-test = refl

-- Three hours after the first readings, they are all in the zone of minutes.
compact_samples_lem_example :
    (compact_samples whole 10800000 readings
      ≡ downsample whole (minutes 15) (between 0 0 readings)
        ++ (downsample whole (minutes 5) (between 0 0 readings)
            ++ (downsample whole (minutes 1) (between 0 7200000 readings)
                ++ since 7200000 readings)))
    × (length (downsample whole (minutes 15) (between 0 0 readings)) ≤ 2209)
    × (length (downsample whole (minutes 5) (between 0 0 readings)) ≤ 1729)
    × (length (downsample whole (minutes 1) (between 0 7200000 readings)) ≤ 1381)
compact_samples_lem_example =
    compact_samples_lem whole 10800000 readings (omega arith, (omega arith, (omega arith, tt)))

-- The middle of the minute that the cutoff divides lies after the first sample that is kept as it is.
compact_samples-test :
    compact_samples whole 7215000 (at 4 3600000 ∷ at 8 3615000 ∷ [])
    ≡ at 4 3630000 ∷ at 8 3615000 ∷ []
unfolding compact_samples split_zones merge_zones first_from reached search search_loop downsample
    start_of bucket_point flush next_bucket add_to_bucket fill
compact_samples-test = refl

abbrev entries : List (List ℕ × Sample ℕ)
entries = (ltc, at 4 0) ∷ (codes "DGB", at 9 3600000) ∷ (ltc, at 8 7200000) ∷ []

query-add_all_example :
    query (add_all (new_store (λ sl. sl) 0 none) entries) 7300000 ltc 1 ≡ at 8 7200000 ∷ []
unfolding str_eq
query-add_all_example =
    query-add_all (λ sl. sl) 0 entries 7300000 ltc 1 (omega arith, (omega arith, (omega arith, tt)))
