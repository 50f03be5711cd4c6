-- ===== src/Routing/Status.antt =====
-- The status that is shown of an account, against the tests that routing makes.
use codex_balancer.Prelude.{◌≡◌, ◌⊎◌, ◌↔◌, true, arith}
use codex_balancer.Account.Window.{Time}
use codex_balancer.Account.Mode.{live, prioritized, on_credits}
use codex_balancer.Routing.Candidate.{Candidate, credit_available, available, status}

-- An account that routing may choose from included quota is shown as live or prioritized.
pub available-status :
    (c : Candidate) (now : Time)
    → available c now ≡ true
    → (status c now ≡ live) ⊎ (status c now ≡ prioritized)
unfolding status available credit_available
available-status c now h = ground arith

-- An account that is shown as live or prioritized may be chosen from included quota, but for the
-- instant at which its cooldown ends.
pub status-available :
    (c : Candidate) (now : Time)
    → (status c now ≡ live) ⊎ (status c now ≡ prioritized)
    → (available c now ≡ true) ⊎ (now ≡ c.cooldown)
unfolding status available
status-available c now h = ground arith

-- An account is shown as on credits exactly if it may spend them.
pub status_credits :
    (c : Candidate) (now : Time) → (status c now ≡ on_credits) ↔ (credit_available c now ≡ true)
unfolding status available
status_credits c now = ground arith
