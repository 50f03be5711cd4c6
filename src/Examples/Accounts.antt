-- ===== src/Examples/Accounts.antt =====
-- The theorems on accounts, at concrete accounts.
use codex_balancer.Prelude.{
  ℕ, ◌≡◌, ◌≤◌, ◌<◌, ◌+◌, ◌*◌, ◌⊎◌, refl, inl, max, true, none, some, [], ◌∷◌, if◌then◌else◌, All,
  arith,
}
use codex_balancer.Account.Window.{
  hour, zero_window, before, longest_window, cycle_duration, credit_cycle_start,
}
use codex_balancer.Account.Mode.{priority, normalized}
use codex_balancer.Account.Quota.{
  ResetCredit, usable, reset_credit_expires_before, next_reset_credit,
}
use codex_balancer.Account.State.{Account, AccountState, apply_persisted}
use codex_balancer.Account.Usage.{seconds, rate_limited, min_cooldown, max_cooldown}
use codex_balancer.Account.Cooldown.{rate_limited_bounds}
use codex_balancer.Account.Adoption.{credentials, apply_persisted_order}
use codex_balancer.Examples.Data.{now, stored, account, week}

rate_limited_bounds_example :
    let b = rate_limited account (seconds 90) now (now + 7) in
    (account.cooldown ≤ b.cooldown)
    × (now + min_cooldown ≤ b.cooldown)
    × (b.cooldown ≤ max account.cooldown (now + max_cooldown))
    × (record b { cooldown = account.cooldown } ≡ account)
rate_limited_bounds_example = rate_limited_bounds account (seconds 90) now (now + 7)

-- A poll that finds a window again lifts the mark of a spent account.
abbrev spent_account : Account
spent_account = record account { spent = true; credits_rejected = true }

-- The stored state with other settings, and with new tokens.
abbrev older : AccountState
older = record stored {
  access_token = "old";
  last_refresh = 800 * hour;
  paused = true;
  routing_mode = priority;
}

abbrev newer : AccountState
newer = record stored { access_token = "new"; last_refresh = 950 * hour; allow_credits = true }

-- Whichever of the two the reload sees first, the newer tokens stay.
apply_persisted_order_example :
    let xy = (apply_persisted (apply_persisted account older).0 newer).0.state in
    let yx = (apply_persisted (apply_persisted account newer).0 older).0.state in
    let newest =
      if before newer.last_refresh account.state.last_refresh
      then credentials account.state
      else credentials newer in
    (credentials xy ≡ newest)
    × (credentials yx ≡ newest)
    × ((xy.paused ≡ newer.paused) × (yx.paused ≡ true))
    × ((xy.routing_mode ≡ normalized newer.routing_mode) × (yx.routing_mode ≡ normalized priority))
    × ((xy.allow_credits ≡ true) × (yx.allow_credits ≡ older.allow_credits))
apply_persisted_order_example = apply_persisted_order account older newer (omega arith)

abbrev undated : ResetCredit
undated = record {
  id = "1";
  reset_type = "codex_rate_limits";
  status = "available";
  expires_at = none;
}

abbrev dated : ResetCredit
dated = record undated { id = "2"; expires_at = some (1005 * hour) }

abbrev used : ResetCredit
used = record undated { status = "used" }

first_reset : next_reset_credit (used ∷ undated ∷ dated ∷ []) now 0 ≡ some dated
unfolding next_reset_credit codex_balancer.Prelude.scan usable
    codex_balancer.Account.Quota.available
first_reset = refl

undated-usable : usable now 0 undated ≡ true
unfolding usable codex_balancer.Account.Quota.available
undated-usable = refl

no_reset : next_reset_credit (used ∷ undated ∷ []) now hour ≡ none
unfolding next_reset_credit codex_balancer.Prelude.scan usable
    codex_balancer.Account.Quota.available
no_reset = refl

cycle_of_week : credit_cycle_start now (zero_window ∷ week ∷ []) ≡ some (932 * hour)
unfolding credit_cycle_start cycle_duration codex_balancer.Prelude.int64 codex_balancer.Prelude.◌*ℤ◌
    longest_window
cycle_of_week = refl
