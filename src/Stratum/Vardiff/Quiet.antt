-- ===== src/Stratum/Vardiff/Quiet.antt =====
-- Vardiff counts no share, leaves the worker's name alone, and sends nothing but difficulties.
use pipool.Base.{ℕ, suc, ◌+◌, ◌-◌, ◌/◌, ◌≡◌, refl, ◌||◌, ◌==◌, ltb, either_way, List, []}
use pipool.Base.Bytes.{All}
use pipool.Go.Float.{Float64}
use pipool.Stratum.Worker.{Worker, Config, Event, set_difficulty}
use pipool.Stratum.Vardiff.{
  zero_diff, coin_fixed_diff, clamp, asked_diff, too_early, retarget_to, adjust_free,
  adjust_vardiff, halved, recently_accepted, decay_vardiff, seconds,
}

module _ {F : Type 0} where
  pub data IsDifficulty : Event F → Type 0 where
    is_difficulty : {d : F} → IsDifficulty (set_difficulty d)

  abbrev pub shares : Worker F → ℕ
  shares w = w.shares_accepted + w.shares_rejected + w.shares_stale

  pub record Quiet (w : Worker F) (r : Worker F × List (Event F)) : Type 0 where
    pub same_name : r.0.worker_name ≡ w.worker_name
    pub same_shares : shares r.0 ≡ shares w
    pub silent : All IsDifficulty r.1

  quiet :
      (w : Worker F) (r : Worker F × List (Event F))
      → r.0.worker_name ≡ w.worker_name
      → shares r.0 ≡ shares w
      → All IsDifficulty r.1
      → Quiet w r
  quiet w r n s d = record { same_name = n; same_shares = s; silent = d }

  module _ (f64 : Float64 F) (cfg : Config F) (now : ℕ) (w : Worker F) where
    same : Quiet w (w, [])
    same = quiet w _ refl refl tt

    retarget_to-Quiet : (d : F) → Quiet w (retarget_to f64 now d w)
    unfolding retarget_to
    retarget_to-Quiet d =
        either_way (Quiet w) (f64.eq d w.difficulty) (quiet w _ refl refl tt)
          (quiet w _ refl refl (is_difficulty, tt))

    adjust_free-Quiet : (count since : ℕ) → Quiet w (adjust_free f64 cfg now count since w)
    unfolding adjust_free
    adjust_free-Quiet count since =
        either_way (Quiet w) (too_early f64 cfg since count) (quiet w _ refl refl tt) (
          either_way (Quiet w) (since / 1000000 == 0 || count == 0) (quiet w _ refl refl tt) (
            retarget_to-Quiet (
              clamp f64 cfg w.suggested_min_diff
                (asked_diff f64 cfg w.difficulty (since / 1000000) count))))

    pub adjust_vardiff-Quiet : Quiet w (adjust_vardiff f64 cfg now w)
    unfolding adjust_vardiff
    adjust_vardiff-Quiet =
        let fd : F = coin_fixed_diff f64 cfg w.worker_name in
        either_way (Quiet w) (f64.lt (zero_diff f64) fd)
          (either_way (Quiet w) (f64.eq w.difficulty fd) same
            (quiet w _ refl refl (is_difficulty, tt)))
          (either_way (Quiet w) (f64.lt (zero_diff f64) w.fixed_diff)
            (either_way (Quiet w) (f64.eq w.difficulty w.fixed_diff) same
              (quiet w _ refl refl (is_difficulty, tt)))
            (adjust_free-Quiet (suc w.shares_since_retarget) (now - w.last_retarget_at)))

    pub decay_vardiff-Quiet : Quiet w (decay_vardiff f64 cfg now w)
    unfolding decay_vardiff
    decay_vardiff-Quiet = either_way (Quiet w) (recently_accepted f64 cfg now w) same (
        either_way (Quiet w) (ltb (now - w.last_retarget_at) (seconds cfg.retarget_s)) same (
          either_way (Quiet w) (f64.eq (halved f64 cfg w.difficulty) w.difficulty) same
            (quiet w _ refl refl (is_difficulty, tt))))
