-- ===== src/Swap/Engine/Run.antt =====
-- The swap engine of internal/swap/engine.go over time.
use pipool.Base.{ℕ, arith, List, [], ◌∷◌, none}
use pipool.Go.Float.{Float64}
use pipool.Swap.Job.{Rule, Config, Outside}
use pipool.Swap.Engine.{Engine, new_engine, tick, update_rule}
use pipool.Swap.Engine.Invariant.{IsValid, count_active, tick-IsValid}

-- What can happen to an engine: a tick at some time, a new rule from the dashboard, or a change of
-- the world outside.
pub data Event (F W : Type 0) : Type 0 where
  tick_at : ℕ → Event F W
  set_rule : List ℕ → Rule F → Event F W
  elsewhere : (W → W) → Event F W

module _ {F W : Type 0} (f64 : Float64 F) (out : Outside F W) where
  unfoldable pub run : List (Event F W) → Engine F → W → Engine F × W
  run [] e w = (e, w)
  run (tick_at now ∷ events) e w = let next = tick f64 out now e w in run events (next.0) (next.1)
  run (set_rule coin rule ∷ events) e w =
      let next = update_rule out e coin rule w in run events (next.0) (next.1)
  run (elsewhere change ∷ events) e w = run events e (change w)

  run-IsValid :
      (events : List (Event F W)) (e : Engine F) (w : W) → IsValid e → IsValid (run events e w).0
  unfolding run
  run-IsValid [] e w v = v
  run-IsValid (tick_at now ∷ events) e w v = run-IsValid events _ _ (tick-IsValid f64 out now e w v)
  run-IsValid (set_rule coin rule ∷ events) e w v =
      run-IsValid events _ _
        (unfold update_rule in record { single = v.single; started = v.started; short = v.short })
  run-IsValid (elsewhere change ∷ events) e w v = run-IsValid events e (change w) v

  new_engine-IsValid : (cfg : Config F) → IsValid (new_engine cfg none)
  unfolding new_engine count_active
  new_engine-IsValid cfg = record {
    single = λ coin. omega arith;
    started = tt;
    short = omega arith;
  }

  -- An engine that starts without saved jobs, after any ticks and changes of its rules, whatever the
  -- exchange and the wallets answer: each coin has at most one job that is neither complete nor
  -- failed, no job is in `idle` or `sending`, and the history has at most 50 jobs.
  pub run-new_engine :
      (cfg : Config F) (events : List (Event F W)) (w : W)
      → IsValid (run events (new_engine cfg none) w).0
  run-new_engine cfg events w = run-IsValid events (new_engine cfg none) w (new_engine-IsValid cfg)
