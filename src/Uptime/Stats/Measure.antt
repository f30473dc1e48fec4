-- ===== src/Uptime/Stats/Measure.antt =====
-- The online time of internal/uptime/tracker.go, against the instants at which a worker was online.
use pipool.Base.{ℕ, zero, suc, ◌+◌, ◌-◌, ◌≤◌, ◌<◌, min, ◌≡◌, refl, ◌∙◌, arith}
use pipool.Base.{Bool, true, false, List, [], ◌∷◌, inl, inr}
use pipool.Base.{ltb, leb, ltb→lt, leb→le, Bool-cases, if◌then◌else◌}
use pipool.Uptime.Tracker.{UptimeEvent}
use pipool.Uptime.Tracker.Timeline.{Timeline}
use pipool.Uptime.Stats.{Walk, accumulate, walk_window, state_at_start, online_time}

-- The status at an instant: that of the last event which is not later, `before` where there is none.
unfoldable pub status : Bool → List UptimeEvent → ℕ → Bool
status before [] x = before
status before (e ∷ events) x =
    if leb e.at x then status e.online events x else status before events x

-- How many of the `n` instants from `lo` on are online.
unfoldable pub online_instants : Bool → List UptimeEvent → ℕ → ℕ → ℕ
online_instants before events lo zero = 0
online_instants before events lo (suc n) =
    (if status before events lo then 1 else 0) + online_instants before events (suc lo) n

abbrev Ordered : ℕ → List UptimeEvent → Type 0
Ordered lo [] = Unit
Ordered lo (e ∷ events) = (lo ≤ e.at) × Ordered e.at events

Timeline-Ordered :
    (before : Bool) (lo : ℕ) (events : List UptimeEvent) (now : Bool) (hi : ℕ)
    → Timeline before lo events now hi
    → Ordered lo events
Timeline-Ordered before lo [] now hi h = tt
Timeline-Ordered before lo (e ∷ events) now hi (turned, after, session, rest) =
    (after, Timeline-Ordered e.online e.at events now hi rest)

status-Ordered :
    (b : Bool) (lo : ℕ) (events : List UptimeEvent) (x : ℕ)
    → Ordered lo events
    → x < lo
    → status b events x ≡ b
unfolding status
status-Ordered b lo [] x h lt = refl
status-Ordered b lo (e ∷ events) x (after, h) lt =
    ground (arith, status-Ordered b e.at events x h (omega arith))

-- Up to the first event, the status is what it was.
online_instants-Ordered :
    (b : Bool) (hi : ℕ) (events : List UptimeEvent) (lo n : ℕ)
    → Ordered hi events
    → lo + n ≤ hi
    → online_instants b events lo n ≡ (if b then n else 0)
unfolding online_instants
online_instants-Ordered b hi events lo zero h le = ground arith
online_instants-Ordered b hi events lo (suc n) h le = ground (
  arith,
  status-Ordered b hi events lo h (omega arith),
  online_instants-Ordered b hi events (suc lo) n h (omega arith),
)

online_instants-none : (b : Bool) (lo n : ℕ) → online_instants b [] lo n ≡ (if b then n else 0)
online_instants-none b lo n = online_instants-Ordered b (lo + n) [] lo n tt (omega arith)

online_instants-split :
    (b : Bool) (events : List UptimeEvent) (lo m n : ℕ)
    → online_instants b events lo (m + n)
      ≡ online_instants b events lo m + online_instants b events (lo + m) n
unfolding online_instants
online_instants-split b events lo zero n =
    let e : lo + 0 ≡ lo = omega arith in let z : 0 + n ≡ n = omega arith in rw (z, e) (omega arith)
online_instants-split b events lo (suc m) n =
    let e : lo + suc m ≡ suc lo + m = omega arith in
    let z : suc m + n ≡ suc (m + n) = omega arith in
    rw (z, e) (omega (arith, online_instants-split b events (suc lo) m n))

-- From an event on, it tells the status.
online_instants-event :
    (b : Bool) (e : UptimeEvent) (events : List UptimeEvent) (lo n : ℕ)
    → e.at ≤ lo
    → online_instants b (e ∷ events) lo n ≡ online_instants e.online events lo n
unfolding online_instants status
online_instants-event b e events lo zero le = refl
online_instants-event b e events lo (suc n) le =
    ground (arith, online_instants-event b e events (suc lo) n (omega arith))

-- A stretch within which the first event falls.
online_instants-reach :
    (b : Bool) (e : UptimeEvent) (events : List UptimeEvent) (lo hi : ℕ)
    → Ordered e.at events
    → lo ≤ e.at
    → e.at ≤ hi
    → online_instants b (e ∷ events) lo (hi - lo)
      ≡ (if b then e.at - lo else 0) + online_instants e.online events e.at (hi - e.at)
online_instants-reach b e events lo hi h from till =
    let len : hi - lo ≡ (e.at - lo) + (hi - e.at) = omega arith in
    let at : lo + (e.at - lo) ≡ e.at = omega arith in
    rw
      (
        len,
        online_instants-split b (e ∷ events) lo (e.at - lo) (hi - e.at),
        at,
        online_instants-event b e events e.at (hi - e.at) (omega arith),
        online_instants-Ordered b e.at (e ∷ events) lo (e.at - lo) (omega arith, h) (omega arith),
      )
      refl

abbrev FirstAfter : ℕ → List UptimeEvent → Type 0
FirstAfter lo [] = Unit
FirstAfter lo (e ∷ events) = lo < e.at

Ordered-FirstAfter :
    (ws lo : ℕ) (events : List UptimeEvent) → Ordered lo events → ws < lo → FirstAfter ws events
Ordered-FirstAfter ws lo [] h lt = tt
Ordered-FirstAfter ws lo (e ∷ events) (after, h) lt = omega arith

module _ (ws now : ℕ) where
  walk_window-measured :
      (c : ℕ) (s : Bool) (total : ℕ) (events : List UptimeEvent)
      → Ordered c events
      → FirstAfter ws events
      → c ≤ now
      → accumulate now
          (walk_window ws now (record { cursor = c; state = s; online_time = total }) events)
        ≡ total + online_instants s events c (now - c)
  unfolding walk_window accumulate
  walk_window-measured c s total [] h first le =
      rw (online_instants-none s c (now - c)) (ground arith)
  walk_window-measured c s total (e ∷ events) (after, h) first le =
      let w : Walk = record { cursor = c; state = s; online_time = total } in
      let out : leb e.at ws ≡ false = ground arith in
      elim (Bool-cases (ltb now e.at)) [
        | inl late ↦
            rw
              (
                out,
                late,
                online_instants-Ordered s e.at (e ∷ events) c (now - c) (omega arith, h)
                    (omega (arith, ltb→lt now e.at late)),
              )
              (ground arith)
        | inr within ↦
            let on =
              walk_window-measured e.at e.online (accumulate e.at w) events h
                (Ordered-FirstAfter ws e.at events h first) (ground arith) in
            rw (out, within, online_instants-reach s e events c now h after (ground arith))
              (on ∙ ground arith)
      ]

  walk_window-skip :
      (w : Walk) (e : UptimeEvent) (events : List UptimeEvent)
      → e.at ≤ ws
      → walk_window ws now w (e ∷ events) ≡ walk_window ws now w events
  unfolding walk_window
  walk_window-skip w e events le = ground arith

  state_at_start-skip :
      (b : Bool) (e : UptimeEvent) (events : List UptimeEvent)
      → e.at ≤ ws
      → state_at_start ws b (e ∷ events) ≡ state_at_start ws e.online events
  unfolding state_at_start
  state_at_start-skip b e events le = ground arith

  state_at_start-FirstAfter :
      (b : Bool) (events : List UptimeEvent) → FirstAfter ws events → state_at_start ws b events ≡ b
  unfolding state_at_start
  state_at_start-FirstAfter b [] first = refl
  state_at_start-FirstAfter b (e ∷ events) first = ground arith

  start-measured :
      (b : Bool) (events : List UptimeEvent)
      → Ordered ws events
      → FirstAfter ws events
      → ws ≤ now
      → accumulate now (
          walk_window ws now
            (record { cursor = ws; state = state_at_start ws b events; online_time = 0 })
            events)
        ≡ online_instants b events ws (now - ws)
  start-measured b events h first le =
      rw (state_at_start-FirstAfter b events first)
        (walk_window-measured ws b 0 events h first le ∙ omega arith)

  online_time-measured :
      (b : Bool) (lo : ℕ) (events : List UptimeEvent)
      → Ordered lo events
      → ws ≤ now
      → accumulate now (
          walk_window ws now
            (record { cursor = ws; state = state_at_start ws b events; online_time = 0 })
            events)
        ≡ online_instants b events ws (now - ws)
  online_time-measured b lo [] h le = start-measured b [] tt tt le
  online_time-measured b lo (e ∷ events) (after, h) le = elim (Bool-cases (leb e.at ws)) [
    | inl before ↦
        let at : e.at ≤ ws = leb→le e.at ws before in
        let rest = online_time-measured e.online e.at events h le in
        rw
          (
            state_at_start-skip b e events at,
            walk_window-skip _ e events at,
            online_instants-event b e events ws (now - ws) at,
          )
          rest
    | inr within ↦ start-measured b (e ∷ events) (ground arith, h) (ground arith) le
  ]

-- A status that is wrong before the first event is so up to that event.
online_instants-before :
    (e : UptimeEvent) (events : List UptimeEvent) (lo n : ℕ)
    → Ordered e.at events
    → online_instants true (e ∷ events) lo n
      ≡ online_instants false (e ∷ events) lo n + (min e.at (lo + n) - lo)
unfolding online_instants status
online_instants-before e events lo zero h = omega arith
online_instants-before e events lo (suc n) h = ground (
  arith,
  status-Ordered true e.at events lo h,
  status-Ordered false e.at events lo h,
  online_instants-before e events (suc lo) n h,
)

-- Over a log that is a timeline, up to a time that is not before the window's start, the code's online
-- time and the time from the start of the window to the first event, if that event is one that ends a
-- session and the window begins before it (up to `now`, where it is later), are together the time that
-- the worker was online in the window.
pub online_time_lem :
    (before : Bool) (lo : ℕ) (e : UptimeEvent) (events : List UptimeEvent) (online : Bool)
    (since ws now : ℕ)
    → Timeline before lo (e ∷ events) online since
    → ws ≤ now
    → online_instants before (e ∷ events) ws (now - ws)
      ≡ online_time (e ∷ events) ws now + (if e.online then 0 else min e.at now - ws)
online_time_lem before lo e events online since ws now (turned, after, session, rest) le =
    let h : Ordered e.at events = Timeline-Ordered e.online e.at events online since rest in
    let code : online_time (e ∷ events) ws now ≡ online_instants false (e ∷ events) ws (now - ws) =
      unfold online_time in
      online_time-measured ws now false e.at (e ∷ events) (omega arith, h) le in
    elim (Bool-cases before) [
      | inl on ↦
          rw on (ground (arith, turned, on, code, online_instants-before e events ws (now - ws) h))
      | inr off ↦ rw off (ground (arith, turned, off, code))
    ]
