-- ===== src/Account/Window.antt =====
-- Times, and the quota windows of internal/app/account.go and client_usage.go.
-- A `time.Time` is the nanoseconds since Go's zero time, which is 0; a `time.Duration` is an int64.
use codex_balancer.Prelude.{
  ℕ, ◌+◌, ◌-◌, ◌*◌, ltb, ◌==◌, if◌then◌else◌, Bool, not, ◌&&◌, ◌||◌, Option, none, some, List, [],
  ◌∷◌, ℤ, pos, negsuc, int_compare, int64, ◌*ℤ◌, is_lt, Float64, float_of, hundred_minus, greater,
  lesser,
}

abbrev pub Time : Type 0
Time = ℕ

abbrev pub second : ℕ
second = 1000000000

abbrev pub minute : ℕ
minute = 60 * second

abbrev pub hour : ℕ
hour = 60 * minute

-- `t.IsZero()`, `t.After(u)`, `t.Before(u)`.
abbrev pub is_zero : Time → Bool
is_zero t = t == 0

abbrev pub after : Time → Time → Bool
after t u = ltb u t

abbrev pub before : Time → Time → Bool
before t u = ltb t u

-- `t.Add(-d)` of a duration that is not negative: an instant before Go's zero time is put at it.
abbrev pub earlier : Time → ℕ → Time
earlier t d = t - d

-- `time.Unix(seconds, 0)`; the Unix epoch is 62135596800 seconds after Go's zero time.
unfoldable pub unix : ℤ → Time
unix (pos n) = (62135596800 + n) * second
unix (negsuc n) = (62135596800 - (n + 1)) * second

pub record Window : Type 0 where
  pub used_percent : Float64
  pub minutes : ℤ
  pub resets_at : Time
  pub seen_at : Time

-- `window{}`.
abbrev pub zero_window : Window
zero_window = record { used_percent = float_of 0; minutes = pos 0; resets_at = 0; seen_at = 0 }

abbrev pub known : Window → Bool
known w = not (is_zero w.seen_at)

-- One round of the loop of `longestWindow`.
abbrev pub longer : Window → Window → Window
longer longest w =
    if known w && (not (known longest) || is_lt (int_compare longest.minutes w.minutes))
    then w
    else longest

unfoldable pub longest_from : Window → List Window → Window
longest_from longest [] = longest
longest_from longest (w ∷ ws) = longest_from (longer longest w) ws

unfoldable pub longest_window : List Window → Window
unfolding longest_from
longest_window windows = longest_from zero_window windows

unfoldable pub remaining_percent : Window → Option Float64
remaining_percent w =
    if not (known w)
    then none
    else some (lesser (greater (hundred_minus w.used_percent) (float_of 0)) (float_of 100))

unfoldable pub cycle_duration : ℤ → ℤ
cycle_duration minutes = int64 (minutes *ℤ pos minute)

-- The start of a cycle of a given length that ends after `now`.
unfoldable pub cycle_start : Time → Window → ℤ → Option Time
cycle_start now cycle (negsuc d) = none
cycle_start now cycle (pos d) =
    if d == 0 || not (known cycle) || not (after cycle.resets_at now)
    then none
    else let start = earlier cycle.resets_at d in if after start now then none else some start

unfoldable pub credit_cycle_start : Time → List Window → Option Time
unfolding cycle_start
credit_cycle_start now windows =
    let cycle = longest_window windows in cycle_start now cycle (cycle_duration cycle.minutes)
