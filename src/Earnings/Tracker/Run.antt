-- ===== src/Earnings/Tracker/Run.antt =====
-- The tracker of internal/earnings/tracker.go over any calls, and over starts from any state that was
-- persisted, with any block logs.
use mathlib.Core.List.{Permᴰ}
use pipool.Base.{ℕ, zero, suc, ◌+◌, ◌≡◌, refl, ◌∙◌, arith, Bool}
use pipool.Base.{List, [], ◌∷◌, ◌++◌, Option, none, some}
use pipool.Base.{length-take, get_elem?, either_way, if◌then◌else◌}
use pipool.Base.Bytes.{All}
use pipool.Go.Float.{Float64}
use pipool.Go.Ints.{ℤ}
use pipool.Go.Maps.{lookup}
use pipool.Earnings.State.{
  BlockLogEntry, TrackedBlock, CoinAccum, PersistedState, EarningsTracker, upper, build_state,
  load_persisted-build_state, load_persisted, or_new_accum,
}
use pipool.Earnings.Blocklogs.{
  contains, hashes, parse_reward, import_accum, imported_block, import_entry, import_entries,
  import_logs, load_blocklogs, new_tracker,
}
use pipool.Earnings.Tracker.{record_block, update_confirmations}
use pipool.Earnings.Tracker.Counts.{
  unorphaned, found, orphaned, unorphaned-take, unorphaned-append, total-put, new_accum-found,
  new_accum-orphaned, import_accum-counts,
}
use pipool.Earnings.Tracker.Sound.{
  Sound, IsSound, record_block-IsSound, update_confirmations-IsSound,
}

unorphaned-Perm :
    {F : Type 0} {bs cs : List (TrackedBlock F)} → Permᴰ bs cs → unorphaned bs ≡ unorphaned cs
unorphaned-Perm Permᴰ.nil = refl
unorphaned-Perm (Permᴰ.cons p q) = rw (p, unorphaned-Perm q) refl
unorphaned-Perm (Permᴰ.swap p q) = rw (p, q) (omega arith)
unorphaned-Perm (Permᴰ.trans p q) = unorphaned-Perm p ∙ unorphaned-Perm q

module _ {F : Type 0} (f64 : Float64 F) (parse_float : List ℕ → Option F) where
  import_entry-Sound :
      (t : EarningsTracker F) (e : BlockLogEntry F)
      → Sound t
      → Sound (import_entry f64 parse_float t e)
  unfolding import_entry imported_block
  import_entry-Sound t e sound =
      let reward : F = parse_reward f64 parse_float e.reward in
      let old : CoinAccum F = or_new_accum f64 (lookup t.coins (upper e.coin)) in
      let acc : CoinAccum F = import_accum f64 reward e old in
      let (f, o) = import_accum-counts f64 reward e old in
      let more = total-put f64 found t.coins (upper e.coin) acc 1 (new_accum-found f64) f in
      let lost =
        total-put f64 orphaned t.coins (upper e.coin) acc (if e.is_orphaned then 1 else 0)
          (new_accum-orphaned f64) o in
      let b : TrackedBlock F = imported_block f64 reward e in
      let longer : unorphaned (t.recent ++ (b ∷ [])) ≡ unorphaned t.recent + unorphaned (b ∷ []) =
        unorphaned-append t.recent (b ∷ []) in
      grind (arith, sound, more, lost, longer)

  import_entries-Sound :
      (entries : List (BlockLogEntry F)) (known : List (List ℕ)) (t : EarningsTracker F)
      → Sound t
      → Sound (import_entries f64 parse_float known t entries).0
  unfolding import_entries
  import_entries-Sound [] known t sound = sound
  import_entries-Sound (e ∷ entries) known t sound =
      import_entries-Sound entries _ _
        (either_way Sound (contains known e.hash) sound (import_entry-Sound t e sound))

  import_logs-Sound :
      (logs : List (Option (List (BlockLogEntry F)))) (known : List (List ℕ))
      (t : EarningsTracker F)
      → Sound t
      → Sound (import_logs f64 parse_float known t logs)
  unfolding import_logs
  import_logs-Sound [] known t sound = sound
  import_logs-Sound (none ∷ logs) known t sound = import_logs-Sound logs known t sound
  import_logs-Sound (some entries ∷ logs) known t sound =
      import_logs-Sound logs _ _ (import_entries-Sound entries known t sound)

  -- The trackers there can be, with the states that persist has read for the file: at a start with no
  -- file, after a call, after persist reads the state, which it may write at any time later, and at a
  -- start from any state that was read, or from a file that is lost (`get_elem?` has none).
  pub data Run (sort_blocks : List (TrackedBlock F) → List (TrackedBlock F))
      : EarningsTracker F → List (PersistedState F) → Type 0 where
    started :
        (logs : List (Option (List (BlockLogEntry F))))
        → Run sort_blocks (new_tracker f64 parse_float sort_blocks none logs) []
    recorded :
        (now : ℕ) (coin : List ℕ) (height : ℕ) (hash : List ℕ) (reward luck : F)
        (t : EarningsTracker F) (read : List (PersistedState F))
        → Run sort_blocks t read
        → Run sort_blocks (record_block f64 now coin height hash reward luck t) read
    updated :
        (coin hash : List ℕ) (confirmations : ℤ) (orphan : Bool) (t : EarningsTracker F)
        (read : List (PersistedState F))
        → Run sort_blocks t read
        → Run sort_blocks (update_confirmations f64 coin hash confirmations orphan t) read
    persisted :
        (now : ℕ) (t : EarningsTracker F) (read : List (PersistedState F))
        → Run sort_blocks t read
        → Run sort_blocks t (build_state now t ∷ read)
    restarted :
        (i : ℕ) (logs : List (Option (List (BlockLogEntry F)))) (t : EarningsTracker F)
        (read : List (PersistedState F))
        → Run sort_blocks t read
        → Run sort_blocks (new_tracker f64 parse_float sort_blocks (get_elem? read i) logs) read

  module _ (sort_blocks : List (TrackedBlock F) → List (TrackedBlock F))
      (rearranges : (bs : List (TrackedBlock F)) → Permᴰ bs (sort_blocks bs)) where
    new_tracker-IsSound :
        (file : Option (PersistedState F)) (logs : List (Option (List (BlockLogEntry F))))
        → Sound (load_persisted file)
        → IsSound (new_tracker f64 parse_float sort_blocks file logs)
    unfolding new_tracker load_blocklogs
    new_tracker-IsSound file logs sound =
        let before : EarningsTracker F = load_persisted file in
        let after : EarningsTracker F =
          import_logs f64 parse_float (hashes before.recent) before logs in
        record {
          sound = omega (
            arith,
            import_logs-Sound logs (hashes before.recent) before sound,
            unorphaned-take 100 (sort_blocks after.recent),
            unorphaned-Perm (rearranges after.recent),
          );
          bounded = omega (arith, length-take 100 (sort_blocks after.recent));
        }

    -- A state that was read is one that a tracker had.
    abbrev WasSound : PersistedState F → Type 0
    WasSound state = Sound (load_persisted (some state))

    any-Sound :
        (read : List (PersistedState F)) (i : ℕ)
        → All WasSound read
        → Sound (load_persisted (get_elem? read i))
    any-Sound [] i h = unfold load_persisted in omega arith
    any-Sound (state ∷ read) zero (here, h) = here
    any-Sound (state ∷ read) (suc i) (here, h) = any-Sound read i h

    build_state-WasSound :
        (now : ℕ) (t : EarningsTracker F) → IsSound t → WasSound (build_state now t)
    build_state-WasSound now t valid = rw (load_persisted-build_state now t) valid.sound

    Run-WasSound :
        (t : EarningsTracker F) (read : List (PersistedState F))
        → Run sort_blocks t read
        → IsSound t × All WasSound read
    Run-WasSound _ _ (started logs) =
        (new_tracker-IsSound none logs (unfold load_persisted in omega arith), tt)
    Run-WasSound _ _ (recorded now coin height hash reward luck t read run) =
        let (sound, states) = Run-WasSound t read run in
        (record_block-IsSound f64 t sound now coin height hash reward luck, states)
    Run-WasSound _ _ (updated coin hash confirmations orphan t read run) =
        let (sound, states) = Run-WasSound t read run in
        (update_confirmations-IsSound f64 t sound coin hash confirmations orphan, states)
    Run-WasSound _ _ (persisted now t read run) =
        let (sound, states) = Run-WasSound t read run in
        (sound, (build_state-WasSound now t sound, states))
    Run-WasSound _ _ (restarted i logs t read run) =
        let (sound, states) = Run-WasSound t read run in
        (new_tracker-IsSound (get_elem? read i) logs (any-Sound read i states), states)

    -- Where sort.Slice rearranges the blocks: whatever calls there were, in whatever order persist wrote
    -- the states that it had read, and whatever logs were read at each start, the orphans of all coins
    -- and the recent blocks that are not orphans are together no more than the blocks that were counted
    -- as found, and at most 100 blocks are kept as recent.
    pub Run-IsSound :
        (t : EarningsTracker F) (read : List (PersistedState F))
        → Run sort_blocks t read
        → IsSound t
    Run-IsSound t read run = (Run-WasSound t read run).0
