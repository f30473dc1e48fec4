-- ===== src/Uptime/Stats/Sessions.antt =====
-- The sessions and the downtime of internal/uptime/tracker.go: together they are the whole time.
use pipool.Base.{ℕ, ◌+◌, ◌-◌, ◌≤◌, ◌<◌, ◌≡◌, arith, not}
use pipool.Base.{Bool, false, List, [], ◌∷◌, inl, inr}
use pipool.Base.{ltb, Bool-cases, ◌&&◌, if◌then◌else◌}
use pipool.Uptime.Tracker.{UptimeEvent, WorkerState}
use pipool.Uptime.Tracker.Timeline.{Timeline}
use pipool.Uptime.Stats.{
  Gaps, add_gap, gaps, calc_total_downtime, SessionStats, add_session, ended_sessions,
  session_stats,
}

-- The downtime with the gap that is open at `at`, if the status is offline.
abbrev Down : Gaps → Bool → ℕ → Type 0
Down g on at = g.last_offline_at ≡ (if on then 0 else at)

-- What one event adds.
unfoldable next_session : SessionStats → UptimeEvent → SessionStats
next_session s e = if not e.online && ltb 0 e.session_dur then add_session e.session_dur s else s

event_passed :
    (e : UptimeEvent) (before : Bool) (lo : ℕ) (s : SessionStats) (g : Gaps)
    → e.online ≡ not before
    → lo ≤ e.at
    → (e.online ≡ false → e.session_dur ≡ e.at - lo)
    → 0 < lo
    → Down g before lo
    → ((next_session s e).total_session_dur + (add_gap g e).downtime + lo
        ≡ s.total_session_dur + g.downtime + e.at)
      × Down (add_gap g e) e.online e.at
unfolding add_gap add_session next_session
event_passed e before lo s g turned after session pos down = elim (Bool-cases before) [
  | inl on ↦ (ground (arith, session), ground (arith, session))
  | inr off ↦ (ground arith, ground arith)
]

-- Over a timeline, what the two loops have added up is the time that has passed.
passed :
    (events : List UptimeEvent) (before : Bool) (lo : ℕ) (on : Bool) (hi : ℕ) (s : SessionStats)
    (g : Gaps)
    → Timeline before lo events on hi
    → 0 < lo
    → Down g before lo
    → ((ended_sessions s events).total_session_dur + (gaps g events).downtime + lo
        ≡ s.total_session_dur + g.downtime + hi)
      × Down (gaps g events) on hi
      × (lo ≤ hi)
unfolding ended_sessions gaps next_session
passed [] before lo on hi s g (same, same_at) pos down =
    (omega arith, rw (same, same_at) at down, omega arith)
passed (e ∷ events) before lo on hi s g (turned, after, session, rest) pos down =
    let (step, open_gap) = event_passed e before lo s g turned after session pos down in
    let (later, closed, upto) =
      passed events e.online e.at on hi (next_session s e) (add_gap g e) rest (omega arith)
        open_gap in
    (omega (arith, later, step), closed, omega (arith, upto))

abbrev no_sessions : SessionStats
no_sessions = record { session_count = 0; total_session_dur = 0; longest_session = 0 }

abbrev no_gaps : Gaps
no_gaps = record { downtime = 0; last_offline_at = 0 }

-- When the log begins.
abbrev since : UptimeEvent → ℕ → ℕ
since e lo = if e.online then e.at else lo

first_passed :
    (e : UptimeEvent) (lo : ℕ)
    → lo ≤ e.at
    → (e.online ≡ false → e.session_dur ≡ e.at - lo)
    → ((next_session no_sessions e).total_session_dur + (add_gap no_gaps e).downtime + since e lo
        ≡ e.at)
      × Down (add_gap no_gaps e) e.online e.at
unfolding add_gap add_session next_session
first_passed e lo after session = elim (Bool-cases e.online) [
  | inl on ↦ (ground arith, ground arith)
  | inr off ↦ (ground (arith, session off), ground arith)
]

log_passed :
    (e : UptimeEvent) (events : List UptimeEvent) (lo : ℕ) (on : Bool) (hi : ℕ)
    → lo ≤ e.at
    → (e.online ≡ false → e.session_dur ≡ e.at - lo)
    → Timeline e.online e.at events on hi
    → 0 < since e lo
    → ((ended_sessions no_sessions (e ∷ events)).total_session_dur
          + (gaps no_gaps (e ∷ events)).downtime
          + since e lo
        ≡ hi)
      × Down (gaps no_gaps (e ∷ events)) on hi
      × (0 < hi)
unfolding ended_sessions gaps next_session
log_passed e events lo on hi after session rest pos =
    let (step, open_gap) = first_passed e lo after session in
    let (later, closed, upto) =
      passed events e.online e.at on hi (next_session no_sessions e) (add_gap no_gaps e) rest
        (ground arith) open_gap in
    (omega (arith, later, step), closed, ground (arith, upto))

-- The stretch after the last event, up to now.
closing :
    (ws : WorkerState) (now : ℕ)
    → Down (gaps no_gaps ws.events) ws.online ws.status_since
    → 0 < ws.status_since
    → (session_stats ws now).total_session_dur + calc_total_downtime ws now
      ≡ (ended_sessions no_sessions ws.events).total_session_dur
        + (gaps no_gaps ws.events).downtime
        + (now - ws.status_since)
unfolding session_stats calc_total_downtime add_session
closing ws now down pos = elim (Bool-cases ws.online) [
  | inl on ↦ ground (arith, rw on at down)
  | inr off ↦ ground (arith, rw off at down)
]

-- Where the log of a worker is a timeline, its times are not the zero time and none is later than
-- `now`, the sessions and the downtime add up to the time since the log begins: since its first event,
-- or since the start of the session that its first event ends.
pub session_stats-calc_total_downtime :
    (ws : WorkerState) (before : Bool) (lo : ℕ) (e : UptimeEvent) (events : List UptimeEvent)
    (now : ℕ)
    → ws.events ≡ e ∷ events
    → Timeline before lo (e ∷ events) ws.online ws.status_since
    → 0 < (if e.online then e.at else lo)
    → ws.status_since ≤ now
    → (session_stats ws now).total_session_dur + calc_total_downtime ws now
      ≡ now - (if e.online then e.at else lo)
session_stats-calc_total_downtime ws before lo e events now log (turned, after, session, rest) pos
      le =
    let (sum, closed, late) =
      log_passed e events lo ws.online ws.status_since after session rest pos in
    let end = closing ws now (rw log closed) late in rw end (rw log (omega (arith, sum)))
