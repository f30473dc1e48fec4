-- ===== src/Uptime/Tracker.antt =====
-- internal/uptime/tracker.go: the tracker's state, WorkerOnline, WorkerOffline and the state file. A time
-- is a number of nanoseconds, the zero time is 0, and each call reads the clock once, as `now`.
pub mod Timeline
pub mod Run
use pipool.Base.{ℕ, suc, ◌-◌, ◌*◌, Bool, true, false, List, [], ◌∷◌, ◌++◌, Option, none, some}
use pipool.Base.{ltb, length, drop, if◌then◌else◌}
use pipool.Go.Maps.{Map, lookup, insert}

pub record UptimeEvent : Type 0 where
  pub online : Bool
  pub at : ℕ
  pub session_dur : ℕ

pub record WorkerState : Type 0 where
  pub name : List ℕ
  pub coin : List ℕ
  pub online : Bool
  pub status_since : ℕ
  pub total_sessions : ℕ
  pub events : List UptimeEvent

-- The state, and what the state file holds, if it is there.
pub record Tracker : Type 0 where
  pub workers : Map WorkerState
  pub state_file : Option (Map WorkerState)

abbrev pub days : ℕ → ℕ
days n = n * 24 * 3600 * 1000000000

abbrev pub max_events : ℕ
max_events = 2000

-- New with loadState: a file that is missing or cannot be parsed is `none`.
unfoldable pub new_tracker : Option (Map WorkerState) → Tracker
new_tracker none = record { workers = []; state_file = none }
new_tracker (some workers) = record { workers = workers; state_file = some workers }

-- `coin + "/" + name`
unfoldable pub worker_key : List ℕ → List ℕ → List ℕ
worker_key name coin = coin ++ (b'/' ∷ name)

-- saveState; `written` says whether all of its file operations succeed.
unfoldable pub save_state : Bool → Tracker → Tracker
save_state written t = if written then record t { state_file = some t.workers } else t

-- `for start < len(ws.Events) && ws.Events[start].At.Before(cutoff)`
unfoldable pub drop_old : ℕ → List UptimeEvent → List UptimeEvent
drop_old cutoff [] = []
drop_old cutoff (e ∷ events) =
    let rest = drop_old cutoff events in if ltb e.at cutoff then rest else e ∷ events

unfoldable pub trim_events : ℕ → List UptimeEvent → List UptimeEvent
trim_events now events =
    let recent = drop_old (now - days 31) events in
    if ltb max_events (length recent) then drop (length recent - max_events) recent else recent

unfoldable pub known_worker : List ℕ → List ℕ → Option WorkerState → WorkerState
known_worker name coin (some ws) = ws
known_worker name coin none = record {
  name = name;
  coin = coin;
  online = false;
  status_since = 0;
  total_sessions = 0;
  events = [];
}

-- A worker that comes online, or stays so.
unfoldable pub go_online : ℕ → WorkerState → WorkerState
go_online now ws = if ws.online then ws else record ws {
  online = true;
  status_since = now;
  total_sessions = suc ws.total_sessions;
  events =
      trim_events now (ws.events ++ (record { online = true; at = now; session_dur = 0 } ∷ []));
}

unfoldable pub go_offline : ℕ → WorkerState → WorkerState
go_offline now ws =
    if ws.online
    then record ws {
      online = false;
      status_since = now;
      events = trim_events now (
          ws.events
          ++ (record { online = false; at = now; session_dur = now - ws.status_since } ∷ []));
    }
    else ws

unfoldable pub put_worker : List ℕ → WorkerState → Tracker → Tracker
put_worker key ws t = record t { workers = insert t.workers key ws }

unfoldable pub worker_online : Bool → ℕ → List ℕ → List ℕ → Tracker → Tracker
worker_online written now name coin t =
    let key = worker_key name coin in
    let ws = known_worker name coin (lookup t.workers key) in
    let after = put_worker key (go_online now ws) t in
    if ws.online then after else save_state written after

unfoldable pub worker_offline : Bool → ℕ → List ℕ → List ℕ → Tracker → Tracker
worker_offline written now name coin t =
    let key = worker_key name coin in
    let ws = known_worker name coin (lookup t.workers key) in
    let after = put_worker key (go_offline now ws) t in
    if ws.online then save_state written after else after
