-- ===== src/Account/Cycle.antt =====
-- The longest window and the start of its cycle.
use codex_balancer.Prelude.{◌≡◌, ◌⊎◌, ℕ, ◌+◌, ◌≤◌, ◌<◌, true, some, List, pos, arith}
use codex_balancer.Account.Window.{
  Time, Window, known, longest_window, cycle_duration, cycle_start, credit_cycle_start,
}

-- A cycle starts by now and ends after it, and lasts as long as the longest window, unless it would
-- start before time zero.
pub credit_cycle_start_lem :
    (now start : Time) (windows : List Window)
    → credit_cycle_start now windows ≡ some start
    → let w = longest_window windows in
      (known w ≡ true)
      × (start ≤ now)
      × (now < w.resets_at)
      × ((d : ℕ) × (cycle_duration w.minutes ≡ pos d)
          × (0 < d)
          × (w.resets_at ≤ start + d)
          × ((start + d ≡ w.resets_at) ⊎ (w.resets_at < d)))
unfolding credit_cycle_start cycle_start
credit_cycle_start_lem now start windows h = ground arith
