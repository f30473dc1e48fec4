-- ===== src/Hashstore/Store.antt =====
-- internal/hashstore/store.go: Store, its samples, queries, compaction and its file. Times are
-- milliseconds; each call reads the clock once.
pub mod Window
pub mod Points
use pipool.Base.{ℕ, ◌-◌, ◌*◌, Bool, false, List, [], ◌∷◌, ◌++◌, Option, none, some}
use pipool.Base.{ltb, leb, length, drop, get_elem?, if◌then◌else◌}
use pipool.Go.Float.{Float64}
use pipool.Go.Maps.{Map, lookup, insert}
use pipool.Go.Search.{search}
use pipool.Hashstore.Downsample.{Sample, downsample}

-- What the file holds is `state_file`, if it is there.
pub record Store (F : Type 0) : Type 0 where
  pub samples : Map (List (Sample F))
  pub state_file : Option (Map (List (Sample F)))
  pub last_save : ℕ
  pub last_comp : ℕ

abbrev pub minutes : ℕ → ℕ
minutes n = n * 60 * 1000

abbrev pub hours : ℕ → ℕ
hours n = n * 60 * 60 * 1000

-- The samples of zone30d, zone7d, zone24h and zoneRaw.
pub record Zones (F : Type 0) : Type 0 where
  pub zone30d : List (Sample F)
  pub zone7d : List (Sample F)
  pub zone24h : List (Sample F)
  pub zone_raw : List (Sample F)

module _ {F : Type 0} where
  -- `samples[coin]`, nil where the map has no such key.
  unfoldable pub or_nil : Option (List (Sample F)) → List (Sample F)
  or_nil none = []
  or_nil (some sl) = sl

  unfoldable pub add : Store F → List ℕ → F → ℕ → Store F
  add s coin khs time_ms = record s {
    samples =
        insert s.samples coin
          (or_nil (lookup s.samples coin) ++ (record { khs = khs; time_ms = time_ms } ∷ []));
  }

  -- `sl[i].TimeMS >= cutoff`
  unfoldable pub reached : ℕ → Option (Sample F) → Bool
  reached cutoff none = false
  reached cutoff (some x) = leb cutoff x.time_ms

  unfoldable pub first_from : ℕ → List (Sample F) → ℕ
  first_from cutoff sl = search (length sl) (λ i. reached cutoff (get_elem? sl i))

  unfoldable pub query : Store F → ℕ → List ℕ → ℕ → List (Sample F)
  query s now coin window_hours =
      let src = or_nil (lookup s.samples coin) in
      drop (first_from (now - hours window_hours) src) src

  unfoldable pub query_coins : ℕ → Map (List (Sample F)) → Map (List (Sample F))
  query_coins cutoff [] = []
  query_coins cutoff ((coin, src) ∷ m) =
      let rest = query_coins cutoff m in
      let idx = first_from cutoff src in
      if ltb idx (length src) then (coin, drop idx src) ∷ rest else rest

  unfoldable pub query_all : Store F → ℕ → ℕ → Map (List (Sample F))
  query_all s now window_hours = query_coins (now - hours window_hours) s.samples

  -- Save; `written` says whether all of its file operations succeed.
  unfoldable pub save : Bool → ℕ → Store F → Store F
  save written now s =
      if written then record s { state_file = some s.samples; last_save = now } else s

  unfoldable pub sort_coins :
      (List (Sample F) → List (Sample F)) → Map (List (Sample F)) → Map (List (Sample F))
  sort_coins sort_samples [] = []
  sort_coins sort_samples ((coin, sl) ∷ m) = (coin, sort_samples sl) ∷ sort_coins sort_samples m

  -- New with load: a file that is missing or cannot be parsed is `none`. `sort_samples` stands for
  -- sort.Slice with the order of the times.
  unfoldable pub new_store :
      (List (Sample F) → List (Sample F)) → ℕ → Option (Map (List (Sample F))) → Store F
  new_store sort_samples now none = record {
    samples = [];
    state_file = none;
    last_save = now;
    last_comp = now;
  }
  new_store sort_samples now (some m) = record {
    samples = sort_coins sort_samples m;
    state_file = some m;
    last_save = now;
    last_comp = now;
  }

  -- The loop that splits the samples of a coin into zones.
  unfoldable pub split_zones : ℕ → List (Sample F) → Zones F
  split_zones now [] = record { zone30d = []; zone7d = []; zone24h = []; zone_raw = [] }
  split_zones now (x ∷ sl) =
      let rest = split_zones now sl in
      if ltb x.time_ms (now - hours (7 * 24))
      then record rest { zone30d = x ∷ rest.zone30d }
      else if ltb x.time_ms (now - hours 24)
      then record rest { zone7d = x ∷ rest.zone7d }
      else if ltb x.time_ms (now - hours 1)
      then record rest { zone24h = x ∷ rest.zone24h }
      else record rest { zone_raw = x ∷ rest.zone_raw }

module _ {F : Type 0} (f64 : Float64 F) where
  unfoldable pub merge_zones : Zones F → List (Sample F)
  merge_zones z =
      downsample f64 (minutes 15) z.zone30d
      ++ (downsample f64 (minutes 5) z.zone7d
          ++ (downsample f64 (minutes 1) z.zone24h ++ z.zone_raw))

  -- Where there are no samples, those of the coin are left as they are.
  unfoldable pub compact_samples : ℕ → List (Sample F) → List (Sample F)
  compact_samples now [] = []
  compact_samples now (x ∷ sl) =
      merge_zones (split_zones now (drop (first_from (now - hours (30 * 24)) (x ∷ sl)) (x ∷ sl)))

  unfoldable pub compact_coins : ℕ → Map (List (Sample F)) → Map (List (Sample F))
  compact_coins now [] = []
  compact_coins now ((coin, sl) ∷ m) = (coin, compact_samples now sl) ∷ compact_coins now m

  unfoldable pub compact : ℕ → Store F → Store F
  compact now s = record s { samples = compact_coins now s.samples; last_comp = now }

  -- One tick of backgroundLoop.
  unfoldable pub background_tick : Bool → ℕ → Store F → Store F
  background_tick written now s = save written now (compact now s)
