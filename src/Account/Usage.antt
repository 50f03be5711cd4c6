-- ===== src/Account/Usage.antt =====
-- What the upstream's answers do to an account: internal/app/usage.go, client_usage.go, pool.go and
-- credit_routing.go. The time that a method reads is an argument; a header's or an event's fields come
-- parsed, `none` where the text is missing or does not parse.
use codex_balancer.Prelude.{
  ℕ, ◌+◌, ◌*◌, ◌/◌, leb, if◌then◌else◌, Bool, true, false, not, ◌&&◌, ◌||◌, Option, none, some,
  List, ℤ, pos, negsuc, int_compare, is_eq, is_lt, ◌-ℤ◌, min, String, str_eq, Float64, float_of,
  float_ge, float_lt,
}
use codex_balancer.Account.Window.{
  Time, second, minute, hour, is_zero, after, before, unix, Window, zero_window, known,
}
use codex_balancer.Account.Quota.{CreditsPayload, SpendControl, spend_limit_reached, ResetCredit}
use codex_balancer.Account.State.{Account, ResetCreditState, pressure}

abbrev pub min_cooldown : ℕ
min_cooldown = 5 * second

abbrev pub max_cooldown : ℕ
max_cooldown = hour

unfoldable pub extend_cooldown : Account → Time → Account
extend_cooldown a until = if after until a.cooldown then record a { cooldown = until } else a

unfoldable pub failed : Account → Time → Account
unfolding extend_cooldown
failed a now = extend_cooldown a (now + min_cooldown)

-- A `retry-after` header: digits, an HTTP date, or neither.
pub data RetryAfter : Type 0 where
  seconds : ℕ → RetryAfter
  date : Time → RetryAfter
  missing : RetryAfter

unfoldable pub retry_after_header : RetryAfter → Time → Time
retry_after_header (seconds n) now = now + min n 3600 * second
retry_after_header (date t) now = t
retry_after_header missing now = 0

-- `until` in `rateLimited`; the header is read at a later instant than `now`.
unfoldable pub rate_limit_until : RetryAfter → Time → Time → Time
unfolding retry_after_header
rate_limit_until h now later =
    let retry_after = retry_after_header h later in
    let least = now + min_cooldown in
    let until = if after retry_after least then retry_after else least in
    if after until (now + max_cooldown) then now + max_cooldown else until

unfoldable pub rate_limited : Account → RetryAfter → Time → Time → Account
unfolding extend_cooldown rate_limit_until
rate_limited a h now later = extend_cooldown a (rate_limit_until h now later)

unfoldable pub accepted : Account → Time → Account
accepted a at = if after at a.last_used then record a { last_used = at } else a

unfoldable pub reject_credits : Account → Account
reject_credits a = record a { credits_rejected = true }

abbrev int_or : Option ℤ → ℤ
int_or none = pos 0
int_or (some n) = n

abbrev unix_or : Option ℤ → Time
unix_or none = 0
unix_or (some n) = unix n

-- `readWindow`: the three headers of one window.
unfoldable pub read_window : Option Float64 → Option ℤ → Option ℤ → Time → Window
read_window none window_minutes reset_at now = zero_window
read_window (some used) window_minutes reset_at now = record {
  used_percent = used;
  minutes = int_or window_minutes;
  resets_at = unix_or reset_at;
  seen_at = now;
}

abbrev pub newer : Window → Window → Window
newer old w = if known w then w else old

unfoldable pub observe : Account → Window → Window → Account
observe a primary secondary = record a {
  primary = newer a.primary primary;
  secondary = newer a.secondary secondary;
}

-- Go's `seconds / 60`, which rounds towards zero.
abbrev whole_minutes : ℤ → ℤ
whole_minutes (pos n) = pos (n / 60)
whole_minutes (negsuc n) = pos 0 -ℤ pos ((n + 1) / 60)

-- `usageWindow.window`.
unfoldable pub usage_window : Option Float64 → ℤ → ℤ → Time → Window
unfolding ◌-ℤ◌
usage_window none reset_at limit_window_seconds fetched_at = zero_window
usage_window (some used) reset_at limit_window_seconds fetched_at = record {
  used_percent = used;
  minutes = whole_minutes limit_window_seconds;
  resets_at = if is_lt (int_compare (pos 0) reset_at) then unix reset_at else 0;
  seen_at = fetched_at;
}

abbrev pub int_eq : ℤ → ℤ → Bool
int_eq a b = is_eq (int_compare a b)

-- The banked resets that a usage poll reports replace the count, and the details with it.
abbrev pub banked_resets : ResetCreditState → Option ℤ → ResetCreditState
banked_resets r none = r
banked_resets r (some n) =
    if not r.known || not (int_eq r.count n)
    then record { fetched_at = 0; known = true; count = n; details = List.[] }
    else r

-- The last `if` of `adopt`.
unfoldable pub clears_spent : Account → Bool
clears_spent a =
    (known a.primary || known a.secondary)
    && float_lt (pressure a) (float_of 100)
    && not (spend_limit_reached a.spend_control)

unfoldable pub adopt :
    Account
    → Time
    → String
    → Window
    → Window
    → Option ℤ
    → Option SpendControl
    → Option CreditsPayload
    → Account
adopt a fetched_at plan_type primary secondary banked spend_control credits =
    let b = record a {
      usage_fetched_at = fetched_at;
      spend_control = spend_control;
      credits = credits;
      credits_rejected = false;
      plan_type = if str_eq plan_type "" then a.plan_type else plan_type;
      primary = newer a.primary primary;
      secondary = newer a.secondary secondary;
      reset_credits = banked_resets a.reset_credits banked;
    } in
    record b { spent = if clears_spent b then false else a.spent }

unfoldable pub adopt_reset_credits : Account → Time → ℤ → List ResetCredit → Account
adopt_reset_credits a fetched_at count credits = record a {
  reset_credits = record {
    fetched_at = fetched_at;
    known = true;
    count = count;
    details = credits;
  };
}

abbrev urgent_usage_refresh_interval : ℕ
urgent_usage_refresh_interval = 2 * minute

abbrev account_detail_refresh_interval : ℕ
account_detail_refresh_interval = hour

-- `now.Sub(t) >= every`.
abbrev elapsed : Time → Time → ℕ → Bool
elapsed now t every = leb (t + every) now

unfoldable pub polls_due : Account → Time → ℕ → Bool × Bool
polls_due a now every =
    let urgent =
      a.spent
      || spend_limit_reached a.spend_control
      || before now a.cooldown
      || float_ge (pressure a) (float_of 95) in
    let usage_every = if urgent then min every urgent_usage_refresh_interval else every in
    (
      is_zero a.usage_fetched_at || elapsed now a.usage_fetched_at usage_every,
      is_zero a.reset_credits.fetched_at
          || elapsed now a.reset_credits.fetched_at account_detail_refresh_interval,
    )

-- One window of a `codex.rate_limits` event.
pub record EventWindow : Type 0 where
  pub used_percent : Option Float64
  pub minutes : Option ℤ
  pub reset_at : Option ℤ

abbrev event_minutes : Option ℤ → ℤ → ℤ
event_minutes none old = old
event_minutes (some n) old = n

abbrev event_reset : Option ℤ → Time → Time
event_reset none old = old
event_reset (some n) old = if is_lt (int_compare (pos 0) n) then unix n else 0

abbrev event_used : EventWindow → Option Float64 → Window → Time → Window
event_used e none w now = w
event_used e (some used) w now = record {
  used_percent = used;
  minutes = event_minutes e.minutes w.minutes;
  resets_at = event_reset e.reset_at w.resets_at;
  seen_at = now;
}

abbrev event_window : Option EventWindow → Window → Time → Window
event_window none w now = w
event_window (some e) w now = event_used e e.used_percent w now

unfoldable pub observe_rate_limit_event :
    Account → Option EventWindow → Option EventWindow → Time → Account
observe_rate_limit_event a primary secondary now = record a {
  primary = event_window primary a.primary now;
  secondary = event_window secondary a.secondary now;
}

unfoldable pub observe_credit_event : Account → Option CreditsPayload → Account
observe_credit_event a credits = record a { credits = credits }
