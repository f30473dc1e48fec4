-- ===== src/Stratum/Vardiff.antt =====
-- internal/stratum/server.go: coinFixedDiff, adjustVardiff, decayVardiff and the pass of
-- idleVardiffDecay. Each call reads the clock once, as `now`.
pub mod Range
pub mod Quiet
use pipool.Base.{ℕ, suc, ◌-◌, ◌*◌, ◌/◌, Bool, not, ◌&&◌, ◌||◌, ◌==◌, if◌then◌else◌}
use pipool.Base.{List, [], ◌∷◌, Option, none, some, ltb, leb}
use pipool.Go.Float.{Float64}
use pipool.Go.Maps.{lookup}
use pipool.Stratum.Worker.{Worker, DiffEvent, Config, Event, set_difficulty, append_last}

abbrev pub seconds : ℕ → ℕ
seconds n = n * 1000000000

module _ {F : Type 0} (f64 : Float64 F) where
  abbrev pub zero_diff : F
  zero_diff = f64.lit 0 0

  -- `fd, ok := m[workerName]; ok && fd > 0`
  unfoldable pub fixed_in : Option F → F → F
  fixed_in none otherwise = otherwise
  fixed_in (some fd) otherwise = if f64.lt zero_diff fd then fd else otherwise

  unfoldable pub coin_fixed_diff : Config F → List ℕ → F
  coin_fixed_diff cfg name =
      fixed_in (lookup cfg.coin_fixed name) (fixed_in (lookup cfg.pool_fixed name) zero_diff)

  -- `if x < bound { x = bound }`
  unfoldable pub at_least : F → F → F
  at_least bound x = if f64.lt x bound then bound else x

  -- The new difficulty of adjustVardiff: within the limits of the coin and of the miner.
  unfoldable pub clamp : Config F → F → F → F
  clamp cfg suggested x =
      let low = at_least cfg.min_diff x in
      let floored = if f64.lt zero_diff suggested then at_least suggested low else low in
      if f64.lt cfg.max_diff floored then cfg.max_diff else floored

  unfoldable pub record_diff : Worker F → F → ℕ → List (DiffEvent F)
  record_diff w diff now = append_last 100 w.diff_history (record { diff = diff; at = now })

  -- adjustVardiff from `w.lastRetargetAt = time.Now()` on, with the new difficulty
  unfoldable pub retarget_to : ℕ → F → Worker F → Worker F × List (Event F)
  retarget_to now new_diff w =
      if f64.eq new_diff w.difficulty
      then (
        record w { last_retarget_at = now; shares_since_retarget = 0; prev_difficulty = zero_diff },
        [],
      )
      else (
        record w {
          last_retarget_at = now;
          shares_since_retarget = 0;
          prev_difficulty = if f64.lt w.difficulty new_diff then w.difficulty else zero_diff;
          difficulty = new_diff;
          diff_history = record_diff w new_diff now;
        },
        set_difficulty new_diff ∷ [],
      )

  -- `!emergency && sinceRetarget < retarget`
  unfoldable pub too_early : Config F → ℕ → ℕ → Bool
  too_early cfg since shares =
      let retarget = seconds cfg.retarget_s in
      let emergency = leb 50 shares && leb (seconds 5) since && ltb since retarget in
      not emergency && ltb since retarget

  -- `w.difficulty * ratio`
  unfoldable pub asked_diff : Config F → F → ℕ → ℕ → F
  asked_diff cfg diff elapsed shares =
      let actual = f64.div (f64.lit elapsed 0) (f64.lit shares 0) in
      f64.mul diff (f64.div (f64.lit cfg.target_ms 0) actual)

  -- adjustVardiff of a worker that is not pinned, with `w.sharesSinceRetarget++` and the time since the
  -- last change
  unfoldable pub adjust_free : Config F → ℕ → ℕ → ℕ → Worker F → Worker F × List (Event F)
  adjust_free cfg now shares since w =
      if too_early cfg since shares
      then (record w { shares_since_retarget = shares }, [])
      else if since / 1000000 == 0 || shares == 0
      then (record w { last_retarget_at = now; shares_since_retarget = 0 }, [])
      else retarget_to now
          (clamp cfg w.suggested_min_diff (asked_diff cfg w.difficulty (since / 1000000) shares)) w

  unfoldable pub adjust_vardiff : Config F → ℕ → Worker F → Worker F × List (Event F)
  adjust_vardiff cfg now w =
      let fd = coin_fixed_diff cfg w.worker_name in
      if f64.lt zero_diff fd
      then if f64.eq w.difficulty fd
        then (w, [])
        else (record w { fixed_diff = fd; difficulty = fd }, set_difficulty fd ∷ [])
      else if f64.lt zero_diff w.fixed_diff
      then if f64.eq w.difficulty w.fixed_diff
        then (w, [])
        else (record w { difficulty = w.fixed_diff }, set_difficulty w.fixed_diff ∷ [])
      else adjust_free cfg now (suc w.shares_since_retarget) (now - w.last_retarget_at) w

  -- Half the difficulty, or the least one.
  unfoldable pub halved : Config F → F → F
  halved cfg diff = at_least cfg.min_diff (f64.div diff (f64.lit 2 0))

  unfoldable pub recently_accepted : Config F → ℕ → Worker F → Bool
  recently_accepted cfg now w =
      not (w.last_accepted_at == 0) && ltb (now - w.last_accepted_at) (2 * seconds cfg.retarget_s)

  unfoldable pub decay_vardiff : Config F → ℕ → Worker F → Worker F × List (Event F)
  decay_vardiff cfg now w =
      if recently_accepted cfg now w
      then (w, [])
      else if ltb (now - w.last_retarget_at) (seconds cfg.retarget_s)
      then (w, [])
      else if f64.eq (halved cfg w.difficulty) w.difficulty
      then (w, [])
      else (
        record w {
          prev_difficulty = zero_diff;
          difficulty = halved cfg w.difficulty;
          diff_history = record_diff w (halved cfg w.difficulty) now;
          last_retarget_at = now;
          shares_since_retarget = 0;
        },
        set_difficulty (halved cfg w.difficulty) ∷ [],
      )

  -- What the pass of idleVardiffDecay does to one worker, and what it sends to it after the pass.
  unfoldable pub idle_decay : Config F → ℕ → Worker F → Worker F × List (Event F)
  idle_decay cfg now w =
      if not w.authorized || f64.lt zero_diff w.fixed_diff
      then (w, [])
      else if ltb 0 w.shares_since_retarget
      then (w, [])
      else if ltb (now - w.last_retarget_at) (seconds cfg.retarget_s)
      then (w, [])
      else if f64.eq (halved cfg w.difficulty) w.difficulty
      then (record w { last_retarget_at = now }, [])
      else (
        record w {
          prev_difficulty = zero_diff;
          difficulty = halved cfg w.difficulty;
          last_retarget_at = now;
          diff_history = record_diff w (halved cfg w.difficulty) now;
        },
        set_difficulty (halved cfg w.difficulty) ∷ [],
      )
