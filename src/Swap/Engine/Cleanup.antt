-- ===== src/Swap/Engine/Cleanup.antt =====
-- cleanupJobs of internal/swap/engine.go against filters.
use pipool.Base.{◌≤◌, ◌≡◌, refl, arith, inl, inr, Bool-cases, dec_lt}
use pipool.Base.{List, [], ◌∷◌, ◌++◌, length, if◌then◌else◌, append-nil, append_assoc}
use pipool.Base.{last_n, few, last_n-append-last_n, length-last_n}
use pipool.Swap.Job.{SwapJob}
use pipool.Swap.Engine.{Engine, is_active, add_history, cleanup_loop, cleanup_jobs}

module _ {F : Type 0} where
  unfoldable pub active_jobs : List (SwapJob F) → List (SwapJob F)
  active_jobs [] = []
  active_jobs (j ∷ jobs) =
      let rest = active_jobs jobs in if is_active j.state then j ∷ rest else rest

  unfoldable pub over_jobs : List (SwapJob F) → List (SwapJob F)
  over_jobs [] = []
  over_jobs (j ∷ jobs) = let rest = over_jobs jobs in if is_active j.state then rest else j ∷ rest

  add_history_lem :
      (history : List (SwapJob F)) (j : SwapJob F)
      → add_history history j ≡ last_n 50 (history ++ (j ∷ []))
  unfolding add_history
  add_history_lem history j = elim (dec_lt 50 (length (history ++ (j ∷ [])))) [
    | yes l ↦ unfold last_n in ground arith
    | no n ↦ rw (few 50 (history ++ (j ∷ [])) (omega arith)) (ground arith)
  ]

  cleanup_loop_lem :
      (jobs active history : List (SwapJob F))
      → length history ≤ 50
      → cleanup_loop jobs active history
        ≡ (active ++ active_jobs jobs, last_n 50 (history ++ over_jobs jobs))
  unfolding cleanup_loop active_jobs over_jobs
  cleanup_loop_lem [] active history h =
      rw (append-nil active, append-nil history, few 50 history h) refl
  cleanup_loop_lem (j ∷ jobs) active history h = elim (Bool-cases (is_active j.state)) [
    | inl on ↦
        rw (on, cleanup_loop_lem jobs (active ++ (j ∷ [])) history h, append_assoc active (j ∷ []))
          refl
    | inr off ↦
        rw
          (
            off,
            add_history_lem history j,
            cleanup_loop_lem jobs active (last_n 50 (history ++ (j ∷ [])))
                (length-last_n 50 (history ++ (j ∷ []))),
            last_n-append-last_n,
            append_assoc history (j ∷ []),
          )
          refl
  ]

  -- From a history of at most 50 jobs, cleanupJobs keeps the jobs that are neither complete nor
  -- failed, in their order, and the history has the newest 50 of its jobs and the others; all else
  -- stays.
  pub cleanup_jobs_lem :
      (e : Engine F)
      → length e.history ≤ 50
      → cleanup_jobs e ≡ record e {
        jobs = active_jobs e.jobs;
        history = last_n 50 (e.history ++ over_jobs e.jobs);
      }
  unfolding cleanup_jobs
  cleanup_jobs_lem e h = rw (cleanup_loop_lem e.jobs [] e.history h) refl
