-- ===== src/Earnings/Tracker/Restart.antt =====
-- A start of internal/earnings/tracker.go from a state that was persisted, and from block logs.
use pipool.Base.{ℕ, suc, ◌+◌, ◌≡◌, refl, arith, true, false, inl, inr}
use pipool.Base.{List, [], ◌∷◌, ◌++◌, Option, none, some, take, Bool-cases, if◌then◌else◌}
use pipool.Base.Bytes.{All}
use pipool.Go.Float.{Float64}
use pipool.Go.Maps.{lookup}
use pipool.Earnings.State.{
  BlockLogEntry, TrackedBlock, CoinAccum, EarningsTracker, upper, build_state,
  load_persisted-build_state, or_new_accum,
}
use pipool.Earnings.Blocklogs.{
  contains, hashes, parse_reward, import_accum, import_entry, import_entries, import_logs,
  load_blocklogs, new_tracker,
}
use pipool.Earnings.Tracker.Counts.{total, found, total-put, new_accum-found, import_accum-counts}

module _ {F : Type 0} where
  -- Every block of the logs that can be read is known.
  abbrev pub AllKnown : List (List ℕ) → List (Option (List (BlockLogEntry F))) → Type 0
  AllKnown known [] = Unit
  AllKnown known (none ∷ logs) = AllKnown known logs
  AllKnown known (some entries ∷ logs) =
      All (λ e. contains known e.hash ≡ true) entries × AllKnown known logs

  -- The hashes of the entries of all logs that can be read.
  abbrev pub entry_hashes : List (BlockLogEntry F) → List (List ℕ)
  entry_hashes [] = []
  entry_hashes (e ∷ entries) = e.hash ∷ entry_hashes entries

  abbrev pub log_hashes : List (Option (List (BlockLogEntry F))) → List (List ℕ)
  log_hashes [] = []
  log_hashes (none ∷ logs) = log_hashes logs
  log_hashes (some entries ∷ logs) = entry_hashes entries ++ log_hashes logs

-- How many different hashes are not known.
abbrev pub fresh : List (List ℕ) → List (List ℕ) → ℕ
fresh known [] = 0
fresh known (h ∷ hs) =
    let old = contains known h in
    let rest = fresh (if old then known else h ∷ known) hs in if old then rest else suc rest

module _ {F : Type 0} (f64 : Float64 F) (parse_float : List ℕ → Option F) where
  module _ (known : List (List ℕ)) (t : EarningsTracker F) (e : BlockLogEntry F)
      (entries : List (BlockLogEntry F)) where
    import_entries-old :
        contains known e.hash ≡ true
        → import_entries f64 parse_float known t (e ∷ entries)
          ≡ import_entries f64 parse_float known t entries
    unfolding import_entries
    import_entries-old old = rw old refl

    import_entries-new :
        contains known e.hash ≡ false
        → import_entries f64 parse_float known t (e ∷ entries)
          ≡ import_entries f64 parse_float
              (e.hash ∷ known)
              (import_entry f64 parse_float t e)
              entries
    unfolding import_entries
    import_entries-new new = rw new refl

  import_entries-known :
      (entries : List (BlockLogEntry F)) (known : List (List ℕ)) (t : EarningsTracker F)
      → All (λ e. contains known e.hash ≡ true) entries
      → import_entries f64 parse_float known t entries ≡ (t, known)
  import_entries-known [] known t h = unfold import_entries in refl
  import_entries-known (e ∷ entries) known t (here, h) =
      rw (import_entries-old known t e entries here) (import_entries-known entries known t h)

  import_logs-known :
      (logs : List (Option (List (BlockLogEntry F)))) (known : List (List ℕ))
      (t : EarningsTracker F)
      → AllKnown known logs
      → import_logs f64 parse_float known t logs ≡ t
  unfolding import_logs
  import_logs-known [] known t h = refl
  import_logs-known (none ∷ logs) known t h = import_logs-known logs known t h
  import_logs-known (some entries ∷ logs) known t (here, h) =
      rw (import_entries-known entries known t here) (import_logs-known logs known t h)

  -- Where every block of the logs is among the recent blocks, a start from the state that was copied
  -- of a tracker gives back every field of every coin and block of that tracker, with the recent
  -- blocks as sort.Slice sorts them, cut to 100.
  pub new_tracker-build_state :
      (sort_blocks : List (TrackedBlock F) → List (TrackedBlock F)) (now : ℕ)
      (t : EarningsTracker F) (logs : List (Option (List (BlockLogEntry F))))
      → AllKnown (hashes t.recent) logs
      → new_tracker f64 parse_float sort_blocks (some (build_state now t)) logs
        ≡ record t { recent = take 100 (sort_blocks t.recent) }
  unfolding new_tracker load_blocklogs
  new_tracker-build_state sort_blocks now t logs h =
      rw (load_persisted-build_state now t, import_logs-known logs (hashes t.recent) t h) refl

  import_entry-found :
      (t : EarningsTracker F) (e : BlockLogEntry F)
      → total found (import_entry f64 parse_float t e).coins ≡ total found t.coins + 1
  unfolding import_entry
  import_entry-found t e =
      let reward : F = parse_reward f64 parse_float e.reward in
      let old : CoinAccum F = or_new_accum f64 (lookup t.coins (upper e.coin)) in
      total-put f64 found t.coins (upper e.coin) (import_accum f64 reward e old) 1
        (new_accum-found f64) (import_accum-counts f64 reward e old).0

  -- The entries of one log, and what is known after them.
  import_entries-found :
      (entries : List (BlockLogEntry F)) (known : List (List ℕ)) (t : EarningsTracker F)
      (more : List (List ℕ))
      → total found (import_entries f64 parse_float known t entries).0.coins
          + fresh (import_entries f64 parse_float known t entries).1 more
        ≡ total found t.coins + fresh known (entry_hashes entries ++ more)
  import_entries-found [] known t more = unfold import_entries in refl
  import_entries-found (e ∷ entries) known t more = elim (Bool-cases (contains known e.hash)) [
    | inl old ↦
        rw (import_entries-old known t e entries old, old)
          (import_entries-found entries known t more)
    | inr new ↦
        rw (import_entries-new known t e entries new, new)
          (omega (
            arith,
            import_entry-found t e,
            import_entries-found entries (e.hash ∷ known) (import_entry f64 parse_float t e) more,
          ))
  ]

  import_logs-found :
      (logs : List (Option (List (BlockLogEntry F)))) (known : List (List ℕ))
      (t : EarningsTracker F)
      → total found (import_logs f64 parse_float known t logs).coins
        ≡ total found t.coins + fresh known (log_hashes logs)
  unfolding import_logs
  import_logs-found [] known t = omega arith
  import_logs-found (none ∷ logs) known t = import_logs-found logs known t
  import_logs-found (some entries ∷ logs) known t =
      let (after, seen) = import_entries f64 parse_float known t entries in
      omega (
        arith,
        import_logs-found logs seen after,
        import_entries-found entries known t (log_hashes logs),
      )

  -- A start from the state that was read of a tracker, with any logs, counts one block more as found
  -- for each hash of the logs that is not among the recent blocks, once for all entries that have it.
  pub new_tracker-found :
      (sort_blocks : List (TrackedBlock F) → List (TrackedBlock F)) (now : ℕ)
      (t : EarningsTracker F) (logs : List (Option (List (BlockLogEntry F))))
      → total found (new_tracker f64 parse_float sort_blocks (some (build_state now t)) logs).coins
        ≡ total found t.coins + fresh (hashes t.recent) (log_hashes logs)
  unfolding new_tracker load_blocklogs
  new_tracker-found sort_blocks now t logs =
      rw (load_persisted-build_state now t) (import_logs-found logs (hashes t.recent) t)
