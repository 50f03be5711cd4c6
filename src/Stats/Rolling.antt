-- ===== src/Stats/Rolling.antt =====
-- The rolling counter of internal/app/stats.go: times of events, of which those up to an index have
-- left the window of a day.
use codex_balancer.Prelude.{
  ℕ, ◌+◌, ◌-◌, ◌*◌, ◌/◌, ltb, leb, ◌==◌, if◌then◌else◌, not, ◌&&◌, List, [], ◌∷◌, ◌++◌, length,
}
use codex_balancer.Account.Window.{Time, hour, after, earlier}

pub record RollingCounter : Type 0 where
  pub events : List Time
  pub start : ℕ

abbrev pub no_events : RollingCounter
no_events = record { events = []; start = 0 }

abbrev pub account_stats_window : ℕ
account_stats_window = 24 * hour

-- `events[start:]`.
unfoldable pub drop : ℕ → List Time → List Time
drop n [] = []
drop n (at ∷ events) = let rest = drop (n - 1) events in if n == 0 then at ∷ events else rest

-- The events of the loop that moves `start`, as many as are not after the cutoff.
unfoldable pub expired : Time → List Time → ℕ
expired cutoff [] = 0
expired cutoff (at ∷ events) =
    let rest = expired cutoff events in if not (after at cutoff) then rest + 1 else 0

-- The counter as `recent` leaves it, with the events that it returns.
unfoldable pub recent : RollingCounter → Time → RollingCounter × List Time
unfolding drop expired
recent c now =
    let start = c.start + expired (earlier now account_stats_window) (drop c.start c.events) in
    let left = drop start c.events in
    if start == length c.events
    then (no_events, [])
    else if leb 1024 start && leb (length c.events) (start * 2)
    then (record { events = left; start = 0 }, left)
    else (record c { start = start }, left)

unfoldable pub add : RollingCounter → Time → RollingCounter
unfolding recent
add c at = (recent (record c { events = c.events ++ at ∷ [] }) at).0

abbrev pub activity_len : ℕ
activity_len = 24

abbrev pub activity_span : ℕ
activity_span = hour

abbrev increment : ℕ → List ℕ → List ℕ
increment i [] = []
increment i (n ∷ ns) = let rest = increment (i - 1) ns in if i == 0 then (n + 1) ∷ ns else n ∷ rest

abbrev bucket_of : Time → Time → ℕ
bucket_of now at =
    let age = (now - at) / activity_span in
    if ltb (activity_len - 1) age then activity_len - 1 else age

abbrev no_activity : List ℕ
no_activity =
    0 ∷ 0 ∷ 0 ∷ 0 ∷ 0 ∷ 0 ∷ 0 ∷ 0 ∷ 0 ∷ 0 ∷ 0 ∷ 0 ∷ 0 ∷ 0 ∷ 0 ∷ 0 ∷ 0 ∷ 0 ∷ 0 ∷ 0 ∷ 0 ∷ 0 ∷ 0 ∷ 0
    ∷ []

unfoldable pub count_events : Time → List Time → List ℕ → List ℕ
count_events now [] activity = activity
count_events now (at ∷ events) activity =
    count_events now events (increment (bucket_of now at) activity)

unfoldable pub account_activity : Time → List Time → List ℕ
unfolding count_events
account_activity now events = count_events now events no_activity

unfoldable pub activity_total : List ℕ → ℕ
activity_total [] = 0
activity_total (n ∷ activity) = n + activity_total activity
