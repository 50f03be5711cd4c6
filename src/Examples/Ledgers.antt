-- ===== src/Examples/Ledgers.antt =====
-- The theorems on routed credits, at a list of two points.
use codex_balancer.Prelude.{◌≡◌, ◌≤◌, ◌+◌, refl, true, some, [], ◌∷◌, List, arith}
use codex_balancer.Ledger.Credits.{RoutedCreditPoint, add_routed_credits, routed_credits_since}
use codex_balancer.Ledger.Totals.{
  IsLedger, add_routed_credits-IsLedger, credits_from, routed_credits_since_sound,
}
use codex_balancer.Examples.Data.{now}

abbrev two_points : List RoutedCreditPoint
two_points =
    record { at = now; nano_credits = 7; unpriced = 0; total_credits = 7; total_unpriced = 0 }
    ∷ record {
      at = now + 5;
      nano_credits = 4;
      unpriced = 0;
      total_credits = 11;
      total_unpriced = 0;
    }
    ∷ []

two_points-IsLedger : IsLedger two_points
two_points-IsLedger = (omega arith, omega arith, (omega arith, refl, refl, tt))

add_routed_credits-IsLedger_example : IsLedger (add_routed_credits two_points (now + 3) 9 true)
add_routed_credits-IsLedger_example =
    add_routed_credits-IsLedger two_points (now + 3) 9 true two_points-IsLedger

since_later : routed_credits_since two_points (now + 1) ≡ some (4, now + 1)
unfolding routed_credits_since
since_later = refl

routed_credits_since_sound_example : (4 ≡ credits_from (now + 1) two_points) × (now + 1 ≤ now + 1)
routed_credits_since_sound_example =
    routed_credits_since_sound two_points (now + 1) 4 (now + 1) two_points-IsLedger since_later
