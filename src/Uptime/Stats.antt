-- ===== src/Uptime/Stats.antt =====
-- internal/uptime/tracker.go: what Snapshot tells of each worker. The events of a worker are in the
-- order of time, so no difference of times here is negative.
pub mod Measure
pub mod Sessions
pub mod Pattern
use pipool.Base.{ℕ, suc, ◌+◌, ◌-◌, ◌/◌, Bool, false, not, ◌&&◌, List, [], ◌∷◌, map}
use pipool.Base.{ltb, leb, ◌==◌, if◌then◌else◌}
use pipool.Go.Float.{Float64}
use pipool.Go.Strings.{str_eq, str_le}
use pipool.Uptime.Tracker.{UptimeEvent, WorkerState, Tracker, days}
use pipool.Uptime.Stats.Pattern.{TimeLib, detect_pattern}

pub record WorkerUptime (F : Type 0) : Type 0 where
  pub name : List ℕ
  pub coin : List ℕ
  pub current_status : Bool
  pub status_since : ℕ
  pub uptime24h : F
  pub uptime7d : F
  pub uptime30d : F
  pub total_sessions : ℕ
  pub total_downtime : ℕ
  pub avg_session_dur : ℕ
  pub longest_session : ℕ
  pub disconnect_pattern : List ℕ
  pub events : List UptimeEvent

-- The loop over the events up to windowStart, with stateAtStart.
unfoldable pub state_at_start : ℕ → Bool → List UptimeEvent → Bool
state_at_start window_start state [] = state
state_at_start window_start state (e ∷ events) =
    let rest = state_at_start window_start e.online events in
    if leb e.at window_start then rest else state

-- cursor, currentState and onlineTime.
pub record Walk : Type 0 where
  pub cursor : ℕ
  pub state : Bool
  pub online_time : ℕ

-- `seg := until.Sub(cursor)`, and the test of currentState after it.
unfoldable pub accumulate : ℕ → Walk → ℕ
accumulate until w = if w.state then w.online_time + (until - w.cursor) else w.online_time

-- The loop over the events within the window.
unfoldable pub walk_window : ℕ → ℕ → Walk → List UptimeEvent → Walk
walk_window window_start now w [] = w
walk_window window_start now w (e ∷ events) =
    let skipped = walk_window window_start now w events in
    let on =
      walk_window window_start now
        (record { cursor = e.at; state = e.online; online_time = accumulate e.at w }) events in
    if leb e.at window_start then skipped else if ltb now e.at then w else on

unfoldable pub online_time : List UptimeEvent → ℕ → ℕ → ℕ
online_time events window_start now = accumulate now (
    walk_window window_start now
      (record {
        cursor = window_start;
        state = state_at_start window_start false events;
        online_time = 0;
      })
      events)

module _ {F : Type 0} (f64 : Float64 F) where
  -- The two clamps and the rounding to two decimal places.
  unfoldable pub rounded_pct : F → F
  rounded_pct pct =
      let low = if f64.lt (f64.lit 100 0) pct then f64.lit 100 0 else pct in
      let clamped = if f64.lt low (f64.lit 0 0) then f64.lit 0 0 else low in
      f64.div (f64.round (f64.mul clamped (f64.lit 100 0))) (f64.lit 100 0)

  unfoldable pub windowed_pct : WorkerState → ℕ → ℕ → List UptimeEvent → F
  windowed_pct ws now window [] =
      if ws.online && (not (ws.status_since == 0) && ltb ws.status_since now)
      then f64.lit 100 0
      else f64.lit 0 0
  windowed_pct ws now window (e ∷ events) =
      let online = online_time (e ∷ events) (now - window) now in
      rounded_pct (f64.mul (f64.div (f64.lit online 0) (f64.lit window 0)) (f64.lit 100 0))

  unfoldable pub calc_uptime_pct : WorkerState → ℕ → ℕ → F
  calc_uptime_pct ws now window = windowed_pct ws now window ws.events

-- downtime and lastOfflineAt.
pub record Gaps : Type 0 where
  pub downtime : ℕ
  pub last_offline_at : ℕ

unfoldable pub add_gap : Gaps → UptimeEvent → Gaps
add_gap g e =
    if not e.online
    then record g { last_offline_at = e.at }
    else if g.last_offline_at == 0
    then g
    else record { downtime = g.downtime + (e.at - g.last_offline_at); last_offline_at = 0 }

unfoldable pub gaps : Gaps → List UptimeEvent → Gaps
gaps g [] = g
gaps g (e ∷ events) = gaps (add_gap g e) events

unfoldable pub calc_total_downtime : WorkerState → ℕ → ℕ
calc_total_downtime ws now =
    let g = gaps (record { downtime = 0; last_offline_at = 0 }) ws.events in
    if not ws.online && not (g.last_offline_at == 0)
    then g.downtime + (now - g.last_offline_at)
    else g.downtime

-- sessionCount, totalSessionDur and longestSession.
pub record SessionStats : Type 0 where
  pub session_count : ℕ
  pub total_session_dur : ℕ
  pub longest_session : ℕ

unfoldable pub add_session : ℕ → SessionStats → SessionStats
add_session dur s = record {
  session_count = suc s.session_count;
  total_session_dur = s.total_session_dur + dur;
  longest_session = if ltb s.longest_session dur then dur else s.longest_session;
}

unfoldable pub ended_sessions : SessionStats → List UptimeEvent → SessionStats
ended_sessions s [] = s
ended_sessions s (e ∷ events) =
    ended_sessions (if not e.online && ltb 0 e.session_dur then add_session e.session_dur s else s)
      events

unfoldable pub session_stats : WorkerState → ℕ → SessionStats
session_stats ws now =
    let s =
      ended_sessions (record { session_count = 0; total_session_dur = 0; longest_session = 0 })
        ws.events in
    if ws.online && not (ws.status_since == 0) then add_session (now - ws.status_since) s else s

unfoldable pub avg_session : SessionStats → ℕ
avg_session s = if ltb 0 s.session_count then s.total_session_dur / s.session_count else 0

module _ {F : Type 0} (f64 : Float64 F) (lib : TimeLib F) where
  -- `clock` is the time that detectPattern reads for itself.
  unfoldable pub compute_uptime : WorkerState → ℕ → ℕ → WorkerUptime F
  compute_uptime ws now clock =
      let s = session_stats ws now in
      record {
        name = ws.name;
        coin = ws.coin;
        current_status = ws.online;
        status_since = ws.status_since;
        uptime24h = calc_uptime_pct f64 ws now (days 1);
        uptime7d = calc_uptime_pct f64 ws now (days 7);
        uptime30d = calc_uptime_pct f64 ws now (days 30);
        total_sessions = ws.total_sessions;
        total_downtime = calc_total_downtime ws now;
        avg_session_dur = avg_session s;
        longest_session = s.longest_session;
        disconnect_pattern = detect_pattern f64 lib ws clock;
        events = ws.events;
      }

  -- The order of the snapshot: `out[i].Coin < out[j].Coin`, or the names where the coins are the same.
  unfoldable pub snapshot_less : WorkerUptime F → WorkerUptime F → Bool
  snapshot_less a b =
      if not (str_eq a.coin b.coin) then not (str_le b.coin a.coin) else not (str_le b.name a.name)

  -- `sort_slice` stands for sort.Slice.
  unfoldable pub snapshot :
      ((WorkerUptime F → WorkerUptime F → Bool) → List (WorkerUptime F) → List (WorkerUptime F))
      → Tracker
      → ℕ
      → ℕ
      → List (WorkerUptime F)
  snapshot sort_slice t now clock =
      sort_slice snapshot_less (map (λ entry. compute_uptime entry.1 now clock) t.workers)
