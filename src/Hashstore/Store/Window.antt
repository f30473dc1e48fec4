-- ===== src/Hashstore/Store/Window.antt =====
-- Query of internal/hashstore/store.go, against a filter of the samples that were added.
use pipool.Base.{ℕ, zero, suc, ◌-◌, ◌≤◌, ◌<◌, ◌≡◌, refl, sym, arith, true, false, inl, inr}
use pipool.Base.{List, [], ◌∷◌, ◌++◌, append-nil, append_assoc, none}
use pipool.Base.{leb, length, drop, get_elem?, Bool-cases, either_way, if◌then◌else◌}
use pipool.Go.Maps.{lookup, lookup-insert}
use pipool.Go.Search.{search-TurnsAt}
use pipool.Go.Strings.{str_eq, str_eq_iff}
use pipool.Hashstore.Downsample.{Sample}
use pipool.Hashstore.Store.{Store, or_nil, add, reached, first_from, query, new_store, hours}

module _ {F : Type 0} where
  -- The times do not go down, and none is before `lo`.
  abbrev pub Ordered : ℕ → List (Sample F) → Type 0
  Ordered lo [] = Unit
  Ordered lo (x ∷ xs) = (lo ≤ x.time_ms) × Ordered x.time_ms xs

  -- The samples that are not before the cutoff.
  abbrev pub since : ℕ → List (Sample F) → List (Sample F)
  since cutoff [] = []
  since cutoff (x ∷ xs) =
      let rest = since cutoff xs in if leb cutoff x.time_ms then x ∷ rest else rest

  -- How many samples stand before the first that is not before the cutoff.
  abbrev before_cutoff : ℕ → List (Sample F) → ℕ
  before_cutoff cutoff [] = 0
  before_cutoff cutoff (x ∷ xs) =
      let rest = before_cutoff cutoff xs in if leb cutoff x.time_ms then 0 else suc rest

  module _ (cutoff : ℕ) where
    before_cutoff-bound : (xs : List (Sample F)) → before_cutoff cutoff xs ≤ length xs
    before_cutoff-bound [] = omega arith
    before_cutoff-bound (x ∷ xs) = ground (arith, before_cutoff-bound xs)

    early :
        (xs : List (Sample F)) (i : ℕ)
        → i < before_cutoff cutoff xs
        → reached cutoff (get_elem? xs i) ≡ false
    unfolding reached
    early [] i lt = refl
    early (x ∷ xs) zero lt = ground arith
    early (x ∷ xs) (suc i) lt = early xs i (ground arith)

    all_late :
        (lo : ℕ) (xs : List (Sample F)) (i : ℕ)
        → Ordered lo xs
        → cutoff ≤ lo
        → i < length xs
        → reached cutoff (get_elem? xs i) ≡ true
    unfolding reached
    all_late lo [] i h le lt = elim lt [ ]
    all_late lo (x ∷ xs) zero (after, h) le lt = ground arith
    all_late lo (x ∷ xs) (suc i) (after, h) le lt =
        all_late x.time_ms xs i h (omega arith) (omega arith)

    late :
        (lo : ℕ) (xs : List (Sample F)) (i : ℕ)
        → Ordered lo xs
        → before_cutoff cutoff xs ≤ i
        → i < length xs
        → reached cutoff (get_elem? xs i) ≡ true
    unfolding reached
    late lo [] i h ge lt = elim lt [ ]
    late lo (x ∷ xs) zero (after, h) ge lt = ground arith
    late lo (x ∷ xs) (suc i) (after, h) ge lt = elim (Bool-cases (leb cutoff x.time_ms)) [
      | inl here ↦ all_late x.time_ms xs i h (ground arith) (omega arith)
      | inr more ↦ late x.time_ms xs i h (ground arith) (omega arith)
    ]

    since-late :
        (lo : ℕ) (xs : List (Sample F)) → Ordered lo xs → cutoff ≤ lo → since cutoff xs ≡ xs
    since-late lo [] h le = refl
    since-late lo (x ∷ xs) (after, h) le =
        let here : leb cutoff x.time_ms ≡ true = ground arith in
        rw (here, since-late x.time_ms xs h (omega arith)) refl

    drop-before_cutoff :
        (lo : ℕ) (xs : List (Sample F))
        → Ordered lo xs
        → drop (before_cutoff cutoff xs) xs ≡ since cutoff xs
    drop-before_cutoff lo [] h = refl
    drop-before_cutoff lo (x ∷ xs) (after, h) = elim (Bool-cases (leb cutoff x.time_ms)) [
      | inl here ↦ rw (here, since-late x.time_ms xs h (ground arith)) refl
      | inr more ↦ rw more (drop-before_cutoff x.time_ms xs h)
    ]

    pub drop-first_from :
        (lo : ℕ) (xs : List (Sample F))
        → Ordered lo xs
        → drop (first_from cutoff xs) xs ≡ since cutoff xs
    unfolding first_from
    drop-first_from lo xs h =
        let at =
          search-TurnsAt (length xs) (λ i. reached cutoff (get_elem? xs i))
            (before_cutoff cutoff xs)
            (record {
              bound = before_cutoff-bound xs;
              before = early xs;
              after = λ i ge lt. late lo xs i h ge lt;
            }) in
        rw at (drop-before_cutoff lo xs h)

  -- Samples of any coins, as Add takes them.
  abbrev pub AllOrdered : ℕ → List (List ℕ × Sample F) → Type 0
  AllOrdered lo [] = Unit
  AllOrdered lo (entry ∷ entries) = (lo ≤ entry.1.time_ms) × AllOrdered entry.1.time_ms entries

  abbrev pub add_all : Store F → List (List ℕ × Sample F) → Store F
  add_all s [] = s
  add_all s ((coin, x) ∷ entries) = add_all (add s coin x.khs x.time_ms) entries

  abbrev pub coin_samples : List ℕ → List (List ℕ × Sample F) → List (Sample F)
  coin_samples coin [] = []
  coin_samples coin ((k, x) ∷ entries) =
      let rest = coin_samples coin entries in if str_eq k coin then x ∷ rest else rest

  Ordered-lower : (lo hi : ℕ) (xs : List (Sample F)) → lo ≤ hi → Ordered hi xs → Ordered lo xs
  Ordered-lower lo hi [] le h = tt
  Ordered-lower lo hi (x ∷ xs) le (after, h) = (omega arith, h)

  coin_samples-Ordered :
      (coin : List ℕ) (lo : ℕ) (entries : List (List ℕ × Sample F))
      → AllOrdered lo entries
      → Ordered lo (coin_samples coin entries)
  coin_samples-Ordered coin lo [] h = tt
  coin_samples-Ordered coin lo ((k, x) ∷ entries) (after, h) =
      let rest : Ordered x.time_ms (coin_samples coin entries) =
        coin_samples-Ordered coin x.time_ms entries h in
      either_way (Ordered lo) (str_eq k coin) (after, rest)
        (Ordered-lower lo x.time_ms (coin_samples coin entries) after rest)

  samples-add :
      (s : Store F) (k : List ℕ) (x : Sample F) (coin : List ℕ)
      → or_nil (lookup (add s k x.khs x.time_ms).samples coin)
        ≡ or_nil (lookup s.samples coin) ++ (if str_eq k coin then x ∷ [] else [])
  unfolding add or_nil
  samples-add s k x coin = elim (Bool-cases (str_eq k coin)) [
    | inl same ↦
        let e : k ≡ coin = (str_eq_iff k coin).0 same in
        rw (lookup-insert s.samples k (or_nil (lookup s.samples k) ++ (x ∷ [])) coin, same, e) refl
    | inr other ↦
        rw (lookup-insert s.samples k (or_nil (lookup s.samples k) ++ (x ∷ [])) coin, other)
          (sym (append-nil _))
  ]

  samples-add_all :
      (s : Store F) (entries : List (List ℕ × Sample F)) (coin : List ℕ)
      → or_nil (lookup (add_all s entries).samples coin)
        ≡ or_nil (lookup s.samples coin) ++ coin_samples coin entries
  samples-add_all s [] coin = sym (append-nil _)
  samples-add_all s ((k, x) ∷ entries) coin = elim (Bool-cases (str_eq k coin)) [
    | inl same ↦
        rw
          (
            same,
            samples-add_all (add s k x.khs x.time_ms) entries coin,
            samples-add s k x coin,
            same,
          )
          (append_assoc (or_nil (lookup s.samples coin)) (x ∷ []) (coin_samples coin entries))
    | inr other ↦
        rw
          (
            other,
            samples-add_all (add s k x.khs x.time_ms) entries coin,
            samples-add s k x coin,
            other,
            append-nil (or_nil (lookup s.samples coin)),
          )
          refl
  ]

  -- Where samples of any coins were added to an empty store, none of them with an earlier time than the
  -- one before it, Query returns those of its coin that are not older than the window, in their order.
  pub query-add_all :
      (sort_samples : List (Sample F) → List (Sample F)) (start : ℕ)
      (entries : List (List ℕ × Sample F)) (now : ℕ) (coin : List ℕ) (window_hours : ℕ)
      → AllOrdered 0 entries
      → query (add_all (new_store sort_samples start none) entries) now coin window_hours
        ≡ since (now - hours window_hours) (coin_samples coin entries)
  unfolding query new_store lookup or_nil
  query-add_all sort_samples start entries now coin window_hours h =
      rw (samples-add_all (new_store sort_samples start none) entries coin) (
        drop-first_from (now - hours window_hours) 0 (coin_samples coin entries)
          (coin_samples-Ordered coin 0 entries h))
