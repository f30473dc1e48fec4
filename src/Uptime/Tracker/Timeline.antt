-- ===== src/Uptime/Tracker/Timeline.antt =====
-- The events of a worker are a timeline: they alternate, in order of time, up to its present status.
use pipool.Base.{ℕ, suc, zero, ◌-◌, ◌≤◌, ◌≡◌, refl, arith, not, Bool, true, false}
use pipool.Base.{List, [], ◌∷◌, ◌++◌, none, some, length, drop, length-drop, ltb, inl, inr}
use pipool.Base.{Bool-cases, Option-cases, by_test, either_way}
use pipool.Base.Options.{by_some}
use pipool.Go.Maps.{Map, lookup, insert, lookup-insert}
use pipool.Go.Strings.{str_eq}
use pipool.Uptime.Tracker.{
  UptimeEvent, WorkerState, drop_old, trim_events, known_worker, go_online, go_offline, max_events,
  days,
}

-- From the status `before`, which began at `lo`, the events lead to the status `now`, which began at
-- `hi`: each turns the status over, none is earlier than the one before it, and one that ends a session
-- tells how long the session was.
abbrev pub Timeline : Bool → ℕ → List UptimeEvent → Bool → ℕ → Type 0
Timeline before lo [] now hi = (before ≡ now) × (lo ≡ hi)
Timeline before lo (e ∷ events) now hi =
    (e.online ≡ not before)
    × (lo ≤ e.at)
    × (e.online ≡ false → e.session_dur ≡ e.at - lo)
    × Timeline e.online e.at events now hi

-- The events that are kept are a timeline from some status on.
abbrev pub HasTimeline : List UptimeEvent → Bool → ℕ → Type 0
HasTimeline events now hi = (before : Bool) × (lo : ℕ) × Timeline before lo events now hi

module _ (now : Bool) (hi : ℕ) where
  pub Timeline-snoc :
      (before : Bool) (lo : ℕ) (events : List UptimeEvent) (e : UptimeEvent)
      → Timeline before lo events now hi
      → hi ≤ e.at
      → e.online ≡ not now
      → (e.online ≡ false → e.session_dur ≡ e.at - hi)
      → Timeline before lo (events ++ (e ∷ [])) e.online e.at
  Timeline-snoc before lo [] e (same, same_at) le turn dur =
      rw (same, same_at) (turn, le, dur, (refl, refl))
  Timeline-snoc before lo (x ∷ events) e (turned, after, session, rest) le turn dur =
      (turned, after, session, Timeline-snoc x.online x.at events e rest le turn dur)

  HasTimeline-tail :
      (e : UptimeEvent) (events : List UptimeEvent)
      → HasTimeline (e ∷ events) now hi
      → HasTimeline events now hi
  HasTimeline-tail e events (before, lo, (turned, after, session, rest)) = (e.online, e.at, rest)

  HasTimeline-drop :
      (n : ℕ) (events : List UptimeEvent)
      → HasTimeline events now hi
      → HasTimeline (drop n events) now hi
  HasTimeline-drop zero events h = h
  HasTimeline-drop (suc n) [] h = h
  HasTimeline-drop (suc n) (e ∷ events) h = HasTimeline-drop n events (HasTimeline-tail e events h)

  HasTimeline-drop_old :
      (cutoff : ℕ) (events : List UptimeEvent)
      → HasTimeline events now hi
      → HasTimeline (drop_old cutoff events) now hi
  unfolding drop_old
  HasTimeline-drop_old cutoff [] h = h
  HasTimeline-drop_old cutoff (e ∷ events) h =
      either_way (λ es. HasTimeline es now hi) (ltb e.at cutoff)
        (HasTimeline-drop_old cutoff events (HasTimeline-tail e events h)) h

  HasTimeline-trim_events :
      (t : ℕ) (events : List UptimeEvent)
      → HasTimeline events now hi
      → HasTimeline (trim_events t events) now hi
  unfolding trim_events
  HasTimeline-trim_events t events h =
      let recent : List UptimeEvent = drop_old (t - days 31) events in
      let k : HasTimeline recent now hi = HasTimeline-drop_old (t - days 31) events h in
      either_way (λ es. HasTimeline es now hi) (ltb max_events (length recent))
        (HasTimeline-drop (length recent - max_events) recent k) k

length-trim_events :
    (t : ℕ) (events : List UptimeEvent) → length (trim_events t events) ≤ max_events
unfolding trim_events
length-trim_events t events =
    let recent : List UptimeEvent = drop_old (t - days 31) events in
    by_test (λ (es : List UptimeEvent). length es ≤ max_events) (ltb max_events (length recent))
      (λ more. omega (arith, length-drop (length recent - max_events) recent)) (λ few. ground arith)

-- The log of a worker at a time.
pub record IsLog (t : ℕ) (ws : WorkerState) : Type 0 where
  pub timeline : HasTimeline ws.events ws.online ws.status_since
  pub past : ws.status_since ≤ t
  pub bounded : length ws.events ≤ max_events

trim-IsLog :
    (t : ℕ) (ws : WorkerState) (online : Bool) (events : List UptimeEvent)
    → ws.events ≡ trim_events t events
    → ws.online ≡ online
    → ws.status_since ≡ t
    → HasTimeline events online t
    → IsLog t ws
trim-IsLog t ws online events ee eo es h = record {
  timeline = rw (ee, eo, es) (HasTimeline-trim_events online t t events h);
  past = omega arith;
  bounded = rw ee (length-trim_events t events);
}

module _ (t : ℕ) (ws : WorkerState) (s : ℕ) (log : IsLog s ws) (le : s ≤ t) where
  pub later-IsLog : IsLog t ws
  later-IsLog = record {
    timeline = log.timeline;
    past = omega (arith, log.past);
    bounded = log.bounded;
  }

  pub go_online-IsLog : IsLog t (go_online t ws)
  unfolding go_online
  go_online-IsLog =
      let e : UptimeEvent = record { online = true; at = t; session_dur = 0 } in
      let (before, lo, line) = log.timeline in
      by_test (IsLog t) ws.online (λ on. later-IsLog)
        (λ off. trim-IsLog t _ true (ws.events ++ (e ∷ [])) refl refl refl (
          before,
          lo,
          Timeline-snoc ws.online ws.status_since before lo ws.events e line
              (omega (arith, log.past)) (rw off refl) (λ no. cc),
        ))

  pub go_offline-IsLog : IsLog t (go_offline t ws)
  unfolding go_offline
  go_offline-IsLog =
      let e : UptimeEvent = record { online = false; at = t; session_dur = t - ws.status_since } in
      let (before, lo, line) = log.timeline in
      by_test (IsLog t) ws.online
        (λ on. trim-IsLog t _ false (ws.events ++ (e ∷ [])) refl refl refl (
          before,
          lo,
          Timeline-snoc ws.online ws.status_since before lo ws.events e line
              (omega (arith, log.past)) (rw on refl) (λ off. refl),
        ))
        (λ off. later-IsLog)

new-IsLog : (t : ℕ) (name coin : List ℕ) → IsLog t (known_worker name coin none)
unfolding known_worker
new-IsLog t name coin = record {
  timeline = (false, 0, (refl, refl));
  past = omega arith;
  bounded = omega arith;
}

-- Every worker of a map has its log.
abbrev pub AreLogs : ℕ → Map WorkerState → Type 0
AreLogs t m = (key : List ℕ) (ws : WorkerState) → lookup m key ≡ some ws → IsLog t ws

pub later-AreLogs : (s t : ℕ) (m : Map WorkerState) → s ≤ t → AreLogs s m → AreLogs t m
later-AreLogs s t m le logs key ws e = later-IsLog t ws s (logs key ws e) le

pub insert-AreLogs :
    (t : ℕ) (m : Map WorkerState) (key : List ℕ) (ws : WorkerState)
    → AreLogs t m
    → IsLog t ws
    → AreLogs t (insert m key ws)
insert-AreLogs t m key ws logs log k v e = elim (Bool-cases (str_eq key k)) [
  | inl same ↦ by_some (IsLog t) (rw (lookup-insert m key ws k, same) at e) log
  | inr other ↦ logs k v (rw (lookup-insert m key ws k, other) at e)
]

pub known_worker-IsLog :
    (t : ℕ) (m : Map WorkerState) (key name coin : List ℕ)
    → AreLogs t m
    → IsLog t (known_worker name coin (lookup m key))
unfolding known_worker
known_worker-IsLog t m key name coin logs = elim (Option-cases (lookup m key)) [
  | inl new ↦ rw new (new-IsLog t name coin)
  | inr (ws, e) ↦ rw e (logs key ws e)
]
