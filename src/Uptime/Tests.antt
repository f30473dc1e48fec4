-- ===== src/Uptime/Tests.antt =====
-- The uptime tracker at work on small inputs.
use pipool.Base.{ℕ, ◌+◌, ◌≡◌, refl, arith, true, false, List, [], ◌∷◌, none, some, drop}
use pipool.Go.Maps.{lookup, insert}
use pipool.Go.Strings.{codes, str_eq}
use pipool.Uptime.Tracker.{
  UptimeEvent, WorkerState, Tracker, new_tracker, worker_key, save_state, drop_old, trim_events,
  known_worker, go_online, go_offline, put_worker, worker_online, worker_offline,
}
use pipool.Uptime.Tracker.Timeline.{IsLog}
use pipool.Uptime.Tracker.Run.{Run, started, online, offline, restarted, Run-IsLog}
use pipool.Uptime.Stats.{
  online_time, walk_window, accumulate, state_at_start, session_stats, ended_sessions, add_session,
  calc_total_downtime, gaps, add_gap,
}
use pipool.Uptime.Stats.Measure.{online_instants, status, online_time_lem}
use pipool.Uptime.Stats.Sessions.{session_stats-calc_total_downtime}
use pipool.Uptime.Stats.Pattern.{itoa, itoa_digits}

abbrev rig : List ℕ
rig = codes "rig"

abbrev ltc : List ℕ
ltc = codes "LTC"

abbrev came : UptimeEvent
came = record { online = true; at = 5; session_dur = 0 }

abbrev left : UptimeEvent
left = record { online = false; at = 9; session_dur = 4 }

abbrev back : UptimeEvent
back = record { online = true; at = 12; session_dur = 0 }

abbrev worker : WorkerState
worker = record {
  name = rig;
  coin = ltc;
  online = true;
  status_since = 12;
  total_sessions = 2;
  events = came ∷ left ∷ back ∷ [];
}

-- A worker that comes, goes and, after a restart, comes back.
abbrev first_run : Tracker
first_run = worker_offline true 9 rig ltc (worker_online true 5 rig ltc (new_tracker none))

abbrev second_run : Tracker
second_run = worker_online false 12 rig ltc (new_tracker first_run.state_file)

second_run-Run : Run 12 second_run
second_run-Run =
    online 10 12 false rig ltc _
      (restarted 9 10 _
        (offline 5 9 true rig ltc _ (online 1 5 true rig ltc _ (started 1) (omega arith))
          (omega arith))
        (omega arith))
      (omega arith)

second_run_lem : lookup second_run.workers (worker_key rig ltc) ≡ some worker
unfolding lookup insert str_eq new_tracker worker_key save_state drop_old trim_events known_worker
    go_online go_offline put_worker worker_online worker_offline
second_run_lem = refl

Run-IsLog_example : IsLog 12 worker
Run-IsLog_example =
    Run-IsLog 12 second_run (worker_key rig ltc) worker second_run-Run second_run_lem

-- Of the time from 7 to 15, two instants and then three were online.
online_time_lem_example :
    online_instants false worker.events 7 8 ≡ online_time worker.events 7 15 + 0
online_time_lem_example =
    online_time_lem false 0 came (left ∷ back ∷ []) true 12 7 15
      (
        refl,
        omega arith,
        (λ no. cc),
        (refl, omega arith, (λ off. refl), (refl, omega arith, (λ no. cc), (refl, refl))),
      )
      (omega arith)

online_time-test : online_time worker.events 7 15 ≡ 5
unfolding online_time walk_window accumulate state_at_start
online_time-test = refl

-- The log that trimEvents leaves of a worker that came before the log begins: from 7 to 9 it was online.
lost_online-test : online_time (drop 1 worker.events) 7 15 ≡ 3
unfolding online_time walk_window accumulate state_at_start
lost_online-test = refl

lost_online_instants-test : online_instants true (drop 1 worker.events) 7 8 ≡ 5
unfolding online_instants status
lost_online_instants-test = refl

session_stats-calc_total_downtime_example :
    (session_stats worker 15).total_session_dur + calc_total_downtime worker 15 ≡ 10
session_stats-calc_total_downtime_example =
    session_stats-calc_total_downtime worker false 0 came (left ∷ back ∷ []) 15 refl
      (
        refl,
        omega arith,
        (λ no. cc),
        (refl, omega arith, (λ off. refl), (refl, omega arith, (λ no. cc), (refl, refl))),
      )
      (omega arith) (omega arith)

session_stats-test : (session_stats worker 15).total_session_dur ≡ 7
unfolding session_stats ended_sessions add_session
session_stats-test = refl

calc_total_downtime-test : calc_total_downtime worker 15 ≡ 3
unfolding calc_total_downtime gaps add_gap
calc_total_downtime-test = refl

itoa-test : itoa 2030 ≡ codes "2030"
unfolding itoa itoa_digits
itoa-test = refl
