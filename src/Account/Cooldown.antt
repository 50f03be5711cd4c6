-- ===== src/Account/Cooldown.antt =====
-- How long an account cools down after a rejection or a failure.
use codex_balancer.Prelude.{◌+◌, ◌≤◌, ◌≡◌, max, arith}
use codex_balancer.Account.Window.{Time}
use codex_balancer.Account.State.{Account}
use codex_balancer.Account.Usage.{
  extend_cooldown, RetryAfter, rate_limit_until, rate_limited, min_cooldown, max_cooldown,
}

-- The end of a cooldown that a rate limit asks for lies between the least and the greatest cooldown.
rate_limit_until_bounds :
    (h : RetryAfter) (now later : Time)
    → (now + min_cooldown ≤ rate_limit_until h now later)
      × (rate_limit_until h now later ≤ now + max_cooldown)
unfolding rate_limit_until
rate_limit_until_bounds h now later = ground arith

-- After a rate limit the cooldown ends no earlier than before it, at least five seconds from now, and
-- no later than it would have or than an hour from now; nothing else of the account changes.
pub rate_limited_bounds :
    (a : Account) (h : RetryAfter) (now later : Time)
    → let b = rate_limited a h now later in
      (a.cooldown ≤ b.cooldown)
      × (now + min_cooldown ≤ b.cooldown)
      × (b.cooldown ≤ max a.cooldown (now + max_cooldown))
      × (record b { cooldown = a.cooldown } ≡ a)
unfolding rate_limited extend_cooldown
rate_limited_bounds a h now later = ground arith
