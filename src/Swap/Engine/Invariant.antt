-- ===== src/Swap/Engine/Invariant.antt =====
-- What holds of the jobs of internal/swap/engine.go between two calls.
use pipool.Base.{ℕ, ◌+◌, ◌≤◌, ◌≡◌, refl, inl, inr, arith, false, Bool-cases}
use pipool.Base.{List, [], ◌∷◌, ◌++◌, not, ◌&&◌, if◌then◌else◌, length, length-last_n}
use pipool.Base.Bytes.{All, All-append}
use pipool.Go.Strings.{str_eq, str_eq_iff}
use pipool.Go.Float.{Float64}
use pipool.Go.Maps.{Map}
use pipool.Swap.Job.{Rule, SwapJob, Outside}
use pipool.Swap.Advance.{advance_job}
use pipool.Swap.Advance.Diagram.{advance_job-⟶, IsStarted, advance_job-IsStarted}
use pipool.Swap.Engine.{
  Engine, is_active, has_active_job, cleanup_jobs, check_and_initiate, advance_jobs, initiate_rule,
  initiate_all, tick,
}
use pipool.Swap.Engine.Cleanup.{active_jobs, over_jobs, cleanup_jobs_lem}
use pipool.Swap.Engine.Initiate.{IsStart, check_and_initiate-IsRefused}

module _ {F : Type 0} where
  -- How many swaps of a coin are in flight.
  unfoldable pub count_active : List ℕ → List (SwapJob F) → ℕ
  count_active coin [] = 0
  count_active coin (j ∷ jobs) =
      (if str_eq j.source_coin coin && is_active j.state then 1 else 0) + count_active coin jobs

  abbrev pub Started : SwapJob F → Type 0
  Started j = IsStarted j.state

  pub record IsValid (e : Engine F) : Type 0 where
    pub single : (coin : List ℕ) → count_active coin e.jobs ≤ 1
    pub started : All Started e.jobs
    pub short : length e.history ≤ 50

  count_active-append :
      (coin : List ℕ) (xs ys : List (SwapJob F))
      → count_active coin (xs ++ ys) ≡ count_active coin xs + count_active coin ys
  unfolding count_active
  count_active-append coin [] ys = omega arith
  count_active-append coin (x ∷ xs) ys = omega (arith, count_active-append coin xs ys)

  has_active_job-count :
      (coin : List ℕ) (jobs : List (SwapJob F))
      → has_active_job jobs coin ≡ false
      → count_active coin jobs ≡ 0
  unfolding count_active has_active_job
  has_active_job-count coin [] h = refl
  has_active_job-count coin (j ∷ jobs) h = ground (arith, has_active_job-count coin jobs)

  count_active-active_jobs :
      (coin : List ℕ) (jobs : List (SwapJob F))
      → count_active coin (active_jobs jobs) ≡ count_active coin jobs
  unfolding count_active active_jobs
  count_active-active_jobs coin [] = refl
  count_active-active_jobs coin (j ∷ jobs) = ground (arith, count_active-active_jobs coin jobs)

  Started-active_jobs :
      (jobs : List (SwapJob F)) → All Started jobs → All Started (active_jobs jobs)
  unfolding active_jobs
  Started-active_jobs [] h = tt
  Started-active_jobs (j ∷ jobs) (s, h) = elim (Bool-cases (is_active j.state)) [
    | inl on ↦ rw on (s, Started-active_jobs jobs h)
    | inr off ↦ rw off (Started-active_jobs jobs h)
  ]

  cleanup_jobs-IsValid : (e : Engine F) → IsValid e → IsValid (cleanup_jobs e)
  cleanup_jobs-IsValid e v = rw (cleanup_jobs_lem e v.short) (record {
    single = λ coin. omega (arith, count_active-active_jobs coin e.jobs, v.single coin);
    started = Started-active_jobs e.jobs v.started;
    short = length-last_n 50 (e.history ++ over_jobs e.jobs);
  })

module _ {F W : Type 0} (f64 : Float64 F) (out : Outside F W) (now : ℕ) where
  job-Started :
      {e e' : Engine F} {coin : List ℕ} {rule : Rule F} {w : W}
      (s : IsStart f64 out now e e' coin rule w)
      → Started s.job
  job-Started s = elim s.sent [ inl (waits, _) ↦ rw waits tt | inr (fails, _) ↦ rw fails tt ]

  one_more :
      {e e' : Engine F} {coin : List ℕ} {rule : Rule F} {w : W}
      → has_active_job e.jobs coin ≡ false
      → (s : IsStart f64 out now e e' coin rule w) → IsValid e
      → (c : List ℕ) → count_active c e.jobs + count_active c (s.job ∷ []) ≤ 1
  unfolding count_active
  one_more {e} {coin} none_yet s v c = elim (Bool-cases (str_eq coin c)) [
    | inl same ↦
        let eq : coin ≡ c = (str_eq_iff coin c).0 same in
        let none_now : count_active c e.jobs ≡ 0 =
          rw (← eq) (has_active_job-count coin e.jobs none_yet) in
        ground arith
    | inr other ↦ rw (s.source, other) (omega (arith, v.single c))
  ]

  start-IsValid :
      {e e' : Engine F} {coin : List ℕ} {rule : Rule F} {w : W}
      → has_active_job e.jobs coin ≡ false
      → IsStart f64 out now e e' coin rule w
      → IsValid e
      → IsValid e'
  start-IsValid {e} none_yet s v = rw s.appended (record {
    single = λ c. rw (count_active-append c e.jobs (s.job ∷ [])) (one_more none_yet s v c);
    started = All-append Started e.jobs (s.job ∷ []) v.started (job-Started s, tt);
    short = v.short;
  })

  check_and_initiate-IsValid :
      (e : Engine F) (coin : List ℕ) (rule : Rule F) (w : W)
      → has_active_job e.jobs coin ≡ false
      → IsValid e
      → IsValid (check_and_initiate f64 out now e coin rule w).0
  check_and_initiate-IsValid e coin rule w none_yet v =
      elim (check_and_initiate-IsRefused f64 out now e coin rule w) [
        | inl (r, same) ↦ rw same v
        | inr s ↦ start-IsValid none_yet s v
      ]

  initiate_rule-IsValid :
      (e : Engine F) (coin : List ℕ) (rule : Rule F) (w : W)
      → IsValid e
      → IsValid (initiate_rule f64 out now e coin rule w).0
  unfolding initiate_rule
  initiate_rule-IsValid e coin rule w v =
      elim (Bool-cases (rule.enabled && not (has_active_job e.jobs coin))) [
        | inl due ↦ rw due (check_and_initiate-IsValid e coin rule w (ground arith) v)
        | inr not_due ↦ rw not_due v
      ]

  initiate_all-IsValid :
      (rules : Map (Rule F)) (e : Engine F) (w : W)
      → IsValid e
      → IsValid (initiate_all f64 out now e rules w).0
  unfolding initiate_all
  initiate_all-IsValid [] e w v = v
  initiate_all-IsValid ((coin, rule) ∷ rules) e w v =
      let started = initiate_rule f64 out now e coin rule w in
      initiate_all-IsValid rules (started.0) (started.1) (initiate_rule-IsValid e coin rule w v)

  advance_jobs-count :
      (addrs : Map (List ℕ)) (jobs : List (SwapJob F)) (w : W) (coin : List ℕ)
      → count_active coin (advance_jobs f64 out now addrs jobs w).0 ≤ count_active coin jobs
  unfolding advance_jobs count_active
  advance_jobs-count addrs [] w coin = omega arith
  advance_jobs-count addrs (j ∷ jobs) w coin = elim (Bool-cases (is_active j.state)) [
    | inl on ↦
        let (kept, same) = advance_job-⟶ f64 out addrs now j w in
        rw on (
          ground (
            arith,
            advance_jobs-count addrs jobs (advance_job f64 out addrs now j w).1 coin,
            same.source,
          ))
    | inr off ↦ rw off (ground (arith, advance_jobs-count addrs jobs w coin))
  ]

  advance_jobs-Started :
      (addrs : Map (List ℕ)) (jobs : List (SwapJob F)) (w : W)
      → All Started jobs
      → All Started (advance_jobs f64 out now addrs jobs w).0
  unfolding advance_jobs
  advance_jobs-Started addrs [] w h = tt
  advance_jobs-Started addrs (j ∷ jobs) w (s, h) = elim (Bool-cases (is_active j.state)) [
    | inl on ↦ rw on (
      advance_job-IsStarted f64 out addrs now j w s,
      advance_jobs-Started addrs jobs (advance_job f64 out addrs now j w).1 h,
    )
    | inr off ↦ rw off (s, advance_jobs-Started addrs jobs w h)
  ]

  pub tick-IsValid : (e : Engine F) (w : W) → IsValid e → IsValid (tick f64 out now e w).0
  unfolding tick
  tick-IsValid e w v = initiate_all-IsValid e.cfg.rules _ _ (
      cleanup_jobs-IsValid _ (record {
        single = λ coin.
            omega (arith, advance_jobs-count e.cfg.withdraw_addrs e.jobs w coin, v.single coin);
        started = advance_jobs-Started e.cfg.withdraw_addrs e.jobs w v.started;
        short = v.short;
      }))
