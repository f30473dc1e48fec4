-- ===== src/Uptime/Stats/Pattern.antt =====
-- internal/uptime/tracker.go: the pattern of the disconnects, and how its interval is printed.
use pipool.Base.{ℕ, zero, suc, ◌+◌, ◌-◌, ◌*◌, ◌/◌, ◌%◌, ◌&&◌, List, [], ◌∷◌, ◌++◌}
use pipool.Base.{ltb, leb, ◌==◌, length, last_n, if◌then◌else◌}
use pipool.Go.Float.{Float64}
use pipool.Go.Strings.{codes}
use pipool.Uptime.Tracker.{UptimeEvent, WorkerState, days}

-- What the code takes from the packages time and math: Duration.Seconds, int(Duration.Hours()),
-- int(Duration.Minutes()), Duration.Round(time.Second).String(), the conversion of
-- `mean * float64(time.Second)` to a Duration, and math.Sqrt.
pub record TimeLib (F : Type 0) : Type 0 where
  pub seconds : ℕ → F
  pub hours : ℕ → ℕ
  pub minutes : ℕ → ℕ
  pub rounded_string : ℕ → List ℕ
  pub of_seconds : F → ℕ
  pub sqrt : F → F

-- The loop of itoa, for as many rounds as its buffer has bytes.
unfoldable pub itoa_digits : ℕ → ℕ → List ℕ → List ℕ
itoa_digits zero n buf = buf
itoa_digits (suc fuel) n buf =
    let rest = itoa_digits fuel (n / 10) ((b'0' + n % 10) ∷ buf) in if n == 0 then buf else rest

-- itoa of an n that is not negative, as hours, days and minutes are.
unfoldable pub itoa : ℕ → List ℕ
itoa n = if n == 0 then codes "0" else itoa_digits 20 n []

unfoldable pub pluralize : ℕ → List ℕ → List ℕ
pluralize n unit = itoa n ++ unit

module _ {F : Type 0} (lib : TimeLib F) where
  unfoldable pub format_duration : ℕ → List ℕ
  format_duration d =
      let hours = lib.hours d in
      let mins = lib.minutes d % 60 in
      let rem_hours = hours % 24 in
      if ltb d (60 * 1000000000)
      then lib.rounded_string d
      else if leb 24 hours
      then (if rem_hours == 0
          then pluralize (hours / 24) (codes "d")
          else pluralize (hours / 24) (codes "d") ++ pluralize rem_hours (codes "h"))
      else if ltb 0 hours && mins == 0
      then pluralize hours (codes "h")
      else if ltb 0 hours
      then pluralize hours (codes "h") ++ pluralize mins (codes "m")
      else pluralize mins (codes "m")

unfoldable pub disconnect_times : List UptimeEvent → List ℕ
disconnect_times [] = []
disconnect_times (e ∷ events) =
    let rest = disconnect_times events in if e.online then rest else e.at ∷ rest

module _ {F : Type 0} (f64 : Float64 F) (lib : TimeLib F) where
  unfoldable pub intervals : ℕ → List ℕ → List F
  intervals previous [] = []
  intervals previous (t ∷ times) = lib.seconds (t - previous) ∷ intervals t times

  unfoldable pub intervals_of : List ℕ → List F
  intervals_of [] = []
  intervals_of (t ∷ times) = intervals t times

  unfoldable pub sum_from : F → List F → F
  sum_from sum [] = sum
  sum_from sum (v ∷ values) = sum_from (f64.add sum v) values

  unfoldable pub sq_diff_sum_from : F → F → List F → F
  sq_diff_sum_from mean sum [] = sum
  sq_diff_sum_from mean sum (v ∷ values) =
      let d = f64.sub v mean in sq_diff_sum_from mean (f64.add sum (f64.mul d d)) values

  unfoldable pub count_after : ℕ → List ℕ → ℕ
  count_after cutoff [] = 0
  count_after cutoff (t ∷ times) =
      let rest = count_after cutoff times in if ltb cutoff t then suc rest else rest

  -- The test of the deviation against the mean, on the times that are left.
  unfoldable pub pattern_of : List ℕ → ℕ → List ℕ
  pattern_of times now =
      let values = intervals_of times in
      let n = f64.lit (length values) 0 in
      let mean = f64.div (sum_from (f64.lit 0 0) values) n in
      let stddev = lib.sqrt (f64.div (sq_diff_sum_from mean (f64.lit 0 0) values) n) in
      if f64.lt mean (f64.lit 1 0)
      then []
      else if f64.le (f64.lit 20 2) (f64.div stddev mean)
      then (if leb 5 (count_after (now - days 1) times) then codes "unstable connection" else [])
      else codes "disconnects every ~" ++ format_duration lib (lib.of_seconds mean)

  unfoldable pub detect_pattern : WorkerState → ℕ → List ℕ
  detect_pattern ws now =
      let times = last_n 10 (disconnect_times ws.events) in
      if ltb (length times) 3 then [] else pattern_of times now
