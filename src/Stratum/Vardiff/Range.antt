-- ===== src/Stratum/Vardiff/Range.antt =====
-- Whatever vardiff does to a worker that is not pinned, its difficulty stays within the limits.
use pipool.Base.{
  ℕ, ◌/◌, ◌==◌, ◌||◌, ◌-◌, not, ltb, [], ◌≡◌, true, false, Bool-cases, inl, inr, either_way,
  by_test, if◌then◌else◌, List,
}
use pipool.Go.Float.{Float64}
use pipool.Stratum.Worker.{Worker, Config, Event}
use pipool.Stratum.Vardiff.{
  zero_diff, coin_fixed_diff, at_least, clamp, asked_diff, too_early, retarget_to, adjust_free,
  adjust_vardiff, halved, decay_vardiff, idle_decay, seconds, recently_accepted,
}

module _ {F : Type 0} (f64 : Float64 F) (cfg : Config F) where
  -- Not below MinDiff and not above MaxDiff.
  abbrev pub Within : F → Type 0
  Within d = f64.lt d cfg.min_diff ≡ false × f64.lt cfg.max_diff d ≡ false

  -- The configuration gives the worker no fixed difficulty, and it has none.
  abbrev pub IsFree : Worker F → Type 0
  IsFree w =
      f64.lt (zero_diff f64) (coin_fixed_diff f64 cfg w.worker_name) ≡ false
      × f64.lt (zero_diff f64) w.fixed_diff ≡ false

  -- What the calls of vardiff make of a worker, at any times.
  pub data Retargets : Worker F → Worker F → Type 0 where
    start : {w : Worker F} → Retargets w w
    adjusted :
        {v w : Worker F} (now : ℕ) → Retargets v w → Retargets v (adjust_vardiff f64 cfg now w).0
    decayed :
        {v w : Worker F} (now : ℕ) → Retargets v w → Retargets v (decay_vardiff f64 cfg now w).0
    idled : {v w : Worker F} (now : ℕ) → Retargets v w → Retargets v (idle_decay f64 cfg now w).0

  abbrev Inv : Worker F → Type 0
  Inv w = IsFree w × Within w.difficulty

  record Keeps (r : Worker F × List (Event F)) : Type 0 where
    free : IsFree r.0
    within : Within r.0.difficulty

  keeps : (r : Worker F × List (Event F)) → Inv r.0 → Keeps r
  keeps r (f, i) = record { free = f; within = i }

  module _ (irrefl : (x : F) → f64.lt x x ≡ false)
      (trans : (x y z : F) → f64.lt x y ≡ true → f64.lt y z ≡ true → f64.lt x z ≡ true)
      (limits : f64.lt cfg.max_diff cfg.min_diff ≡ false)
      (halving : (x : F)
        → f64.lt cfg.max_diff x ≡ false
        → f64.lt cfg.max_diff (f64.div x (f64.lit 2 0)) ≡ false) where
    at_least-min : (x : F) → f64.lt (at_least f64 cfg.min_diff x) cfg.min_diff ≡ false
    unfolding at_least
    at_least-min x =
        by_test (λ t. f64.lt t cfg.min_diff ≡ false) (f64.lt x cfg.min_diff)
          (λ e. irrefl cfg.min_diff) (λ e. e)

    raised :
        (x s : F) → f64.lt x cfg.min_diff ≡ false → f64.lt (at_least f64 s x) cfg.min_diff ≡ false
    unfolding at_least
    raised x s h =
        by_test (λ t. f64.lt t cfg.min_diff ≡ false) (f64.lt x s)
          (λ e. elim (Bool-cases (f64.lt s cfg.min_diff)) [
            | inl below ↦
                let above : f64.lt x cfg.min_diff ≡ true = trans x s cfg.min_diff e below in cc
            | inr ok ↦ ok
          ])
          (λ e. h)

    clamp-Within : (suggested x : F) → Within (clamp f64 cfg suggested x)
    unfolding clamp
    clamp-Within suggested x =
        let low : F = at_least f64 cfg.min_diff x in
        let floored : F =
          if f64.lt (zero_diff f64) suggested then at_least f64 suggested low else low in
        let ok : f64.lt floored cfg.min_diff ≡ false =
          either_way (λ t. f64.lt t cfg.min_diff ≡ false) (f64.lt (zero_diff f64) suggested)
            (raised low suggested (at_least-min x)) (at_least-min x) in
        by_test Within (f64.lt cfg.max_diff floored) (λ e. (limits, irrefl cfg.max_diff))
          (λ e. (ok, e))

    halved-Within : (x : F) → Within x → Within (halved f64 cfg x)
    unfolding halved at_least
    halved-Within x (lo, hi) =
        let half : F = f64.div x (f64.lit 2 0) in
        by_test Within (f64.lt half cfg.min_diff) (λ e. (irrefl cfg.min_diff, limits))
          (λ e. (e, halving x hi))

    retarget_to-Keeps :
        (now : ℕ) (d : F) (w : Worker F) → Within d → Inv w → Keeps (retarget_to f64 now d w)
    unfolding retarget_to
    retarget_to-Keeps now d w h (free, i) =
        by_test Keeps (f64.eq d w.difficulty) (λ e. keeps _ (free, i)) (λ e. keeps _ (free, h))

    adjust_free-Keeps :
        (now shares since : ℕ) (w : Worker F)
        → Inv w
        → Keeps (adjust_free f64 cfg now shares since w)
    unfolding adjust_free
    adjust_free-Keeps now shares since w i =
        let asked : F = asked_diff f64 cfg w.difficulty (since / 1000000) shares in
        either_way Keeps (too_early f64 cfg since shares) (keeps _ i) (
          either_way Keeps (since / 1000000 == 0 || shares == 0) (keeps _ i) (
            retarget_to-Keeps now (clamp f64 cfg w.suggested_min_diff asked) w
              (clamp-Within w.suggested_min_diff asked) i))

    adjust_vardiff-Keeps : (now : ℕ) (w : Worker F) → Inv w → Keeps (adjust_vardiff f64 cfg now w)
    unfolding adjust_vardiff
    adjust_vardiff-Keeps now w ((a, b), i) = rw (a, b) (adjust_free-Keeps now _ _ w ((a, b), i))

    decay_vardiff-Keeps : (now : ℕ) (w : Worker F) → Inv w → Keeps (decay_vardiff f64 cfg now w)
    unfolding decay_vardiff
    decay_vardiff-Keeps now w (free, i) =
        let same : Keeps (w, []) = keeps _ (free, i) in
        either_way Keeps (recently_accepted f64 cfg now w) same (
          either_way Keeps (ltb (now - w.last_retarget_at) (seconds cfg.retarget_s)) same (
            either_way Keeps (f64.eq (halved f64 cfg w.difficulty) w.difficulty) same
              (keeps _ (free, halved-Within w.difficulty i))))

    idle_decay-Keeps : (now : ℕ) (w : Worker F) → Inv w → Keeps (idle_decay f64 cfg now w)
    unfolding idle_decay
    idle_decay-Keeps now w (free, i) =
        let same : Keeps (w, []) = keeps _ (free, i) in
        either_way Keeps (not w.authorized || f64.lt (zero_diff f64) w.fixed_diff) same (
          either_way Keeps (ltb 0 w.shares_since_retarget) same (
            either_way Keeps (ltb (now - w.last_retarget_at) (seconds cfg.retarget_s)) same (
              either_way Keeps (f64.eq (halved f64 cfg w.difficulty) w.difficulty)
                (keeps _ (free, i)) (keeps _ (free, halved-Within w.difficulty i)))))

    kept : {r : Worker F × List (Event F)} → Keeps r → Inv r.0
    kept k = (k.free, k.within)

    Retargets-Inv : {v w : Worker F} → Retargets v w → Inv v → Inv w
    Retargets-Inv start i = i
    Retargets-Inv (adjusted {w} now r) i = kept (adjust_vardiff-Keeps now w (Retargets-Inv r i))
    Retargets-Inv (decayed {w} now r) i = kept (decay_vardiff-Keeps now w (Retargets-Inv r i))
    Retargets-Inv (idled {w} now r) i = kept (idle_decay-Keeps now w (Retargets-Inv r i))

    -- From a worker with no fixed difficulty and a difficulty within the limits, any calls of
    -- adjustVardiff, decayVardiff and the pass for idle workers lead to one within the limits, where the
    -- order of float64 is irreflexive and transitive, MaxDiff is not below MinDiff, and half of what is
    -- not above MaxDiff is not above it.
    pub Retargets-Within :
        {v w : Worker F} → IsFree v → Within v.difficulty → Retargets v w → Within w.difficulty
    Retargets-Within free i r = (Retargets-Inv r (free, i)).1
