-- ===== src/Uptime/Tracker/Run.antt =====
-- The tracker of internal/uptime/tracker.go from a first start: the calls as they come, and restarts.
use pipool.Base.{ℕ, ◌≤◌, ◌≡◌, Bool, List, none, some}
use pipool.Base.{inl, inr, Option-cases, either_way}
use pipool.Base.Options.{by_some}
use pipool.Go.Maps.{Map, lookup}
use pipool.Uptime.Tracker.{
  WorkerState, Tracker, new_tracker, worker_key, save_state, known_worker, go_online, go_offline,
  put_worker, worker_online, worker_offline,
}
use pipool.Uptime.Tracker.Timeline.{
  IsLog, AreLogs, later-AreLogs, insert-AreLogs, known_worker-IsLog, go_online-IsLog,
  go_offline-IsLog,
}

-- The trackers there can be at a time: one that starts with no file, one after a call, at a clock that
-- is not set back, and one that starts again from the file.
pub data Run : ℕ → Tracker → Type 0 where
  started : (t : ℕ) → Run t (new_tracker none)
  online :
      (s now : ℕ) (written : Bool) (name coin : List ℕ) (tr : Tracker)
      → Run s tr
      → s ≤ now
      → Run now (worker_online written now name coin tr)
  offline :
      (s now : ℕ) (written : Bool) (name coin : List ℕ) (tr : Tracker)
      → Run s tr
      → s ≤ now
      → Run now (worker_offline written now name coin tr)
  restarted : (s now : ℕ) (tr : Tracker) → Run s tr → s ≤ now → Run now (new_tracker tr.state_file)

-- What holds of the tracker at a time: the logs in memory, and those in the file.
record IsValid (t : ℕ) (tr : Tracker) : Type 0 where
  memory : AreLogs t tr.workers
  file : (m : Map WorkerState) → tr.state_file ≡ some m → AreLogs t m

no_tracker-IsValid : (t : ℕ) → IsValid t (new_tracker none)
unfolding new_tracker lookup
no_tracker-IsValid t = record { memory = λ key ws e. cc; file = λ m e. cc }

module _ (s t : ℕ) (tr : Tracker) (valid : IsValid s tr) (le : s ≤ t) where
  put_worker-IsValid :
      (key : List ℕ) (ws : WorkerState) → IsLog t ws → IsValid t (put_worker key ws tr)
  unfolding put_worker
  put_worker-IsValid key ws log = record {
    memory = insert-AreLogs t tr.workers key ws (later-AreLogs s t tr.workers le valid.memory) log;
    file = λ m e. later-AreLogs s t m le (valid.file m e);
  }

  new_tracker-IsValid : IsValid t (new_tracker tr.state_file)
  unfolding new_tracker
  new_tracker-IsValid = elim (Option-cases tr.state_file) [
    | inl missing ↦ rw missing (no_tracker-IsValid t)
    | inr (m, e) ↦
        let logs : AreLogs t m = later-AreLogs s t m le (valid.file m e) in
        rw e (record { memory = logs; file = λ k same. by_some (AreLogs t) same logs })
  ]

save_state-IsValid :
    (written : Bool) (t : ℕ) (tr : Tracker) → IsValid t tr → IsValid t (save_state written tr)
unfolding save_state
save_state-IsValid written t tr valid =
    either_way (IsValid t) written
      (record { memory = valid.memory; file = λ m e. by_some (AreLogs t) e valid.memory }) valid

module _ (s now : ℕ) (written : Bool) (name coin : List ℕ) (tr : Tracker) (valid : IsValid s tr)
    (le : s ≤ now) where
  known-IsLog : IsLog s (known_worker name coin (lookup tr.workers (worker_key name coin)))
  known-IsLog = known_worker-IsLog s tr.workers (worker_key name coin) name coin valid.memory

  worker_online-IsValid : IsValid now (worker_online written now name coin tr)
  unfolding worker_online
  worker_online-IsValid =
      let key : List ℕ = worker_key name coin in
      let ws : WorkerState = known_worker name coin (lookup tr.workers key) in
      let after : IsValid now (put_worker key (go_online now ws) tr) =
        put_worker-IsValid s now tr valid le key (go_online now ws)
          (go_online-IsLog now ws s known-IsLog le) in
      either_way (IsValid now) ws.online after (save_state-IsValid written now _ after)

  worker_offline-IsValid : IsValid now (worker_offline written now name coin tr)
  unfolding worker_offline
  worker_offline-IsValid =
      let key : List ℕ = worker_key name coin in
      let ws : WorkerState = known_worker name coin (lookup tr.workers key) in
      let after : IsValid now (put_worker key (go_offline now ws) tr) =
        put_worker-IsValid s now tr valid le key (go_offline now ws)
          (go_offline-IsLog now ws s known-IsLog le) in
      either_way (IsValid now) ws.online (save_state-IsValid written now _ after) after

Run-IsValid : (t : ℕ) (tr : Tracker) → Run t tr → IsValid t tr
Run-IsValid _ _ (started t) = no_tracker-IsValid t
Run-IsValid _ _ (online s t written name coin before run le) =
    worker_online-IsValid s t written name coin before (Run-IsValid s before run) le
Run-IsValid _ _ (offline s t written name coin before run le) =
    worker_offline-IsValid s t written name coin before (Run-IsValid s before run) le
Run-IsValid _ _ (restarted s t before run le) =
    new_tracker-IsValid s t before (Run-IsValid s before run) le

-- Whatever calls and restarts there were, at clocks that were not set back, a worker of the tracker
-- has its log: at most 2000 events that alternate between online and offline, in the order of time,
-- the last of them agreeing with the worker's status and since when it has it, each offline event
-- telling how long the worker had been online, and none later than the last call.
pub Run-IsLog :
    (t : ℕ) (tr : Tracker) (key : List ℕ) (ws : WorkerState)
    → Run t tr
    → lookup tr.workers key ≡ some ws
    → IsLog t ws
Run-IsLog t tr key ws run e = (Run-IsValid t tr run).memory key ws e
