-- ===== src/Account/Mode.antt =====
-- Routing modes, statuses and plans: internal/app/account.go.
use codex_balancer.Prelude.{
  String, codes, trim_space, to_lower, codes_eq, Bool, true, false, not, ◌||◌,
}

-- The type is a string; `unknown` is any value that is none of the three.
pub data RoutingMode : Type 0 where
  normal priority paused : RoutingMode
  unknown : String → RoutingMode

unfoldable pub normalized : RoutingMode → RoutingMode
normalized priority = priority
normalized normal = normal
normalized paused = normal
normalized (unknown s) = normal

unfoldable pub next : RoutingMode → RoutingMode
next priority = paused
next paused = normal
next normal = priority
next (unknown s) = priority

abbrev pub is_priority : RoutingMode → Bool
is_priority priority = true
is_priority normal = false
is_priority paused = false
is_priority (unknown s) = false

abbrev pub is_paused : RoutingMode → Bool
is_paused paused = true
is_paused normal = false
is_paused priority = false
is_paused (unknown s) = false

-- `accountStatus`.
pub data AccountStatus : Type 0 where
  live prioritized on_credits checking cooling paused needs_reauth not_routed : AccountStatus

unfoldable pub routable_plan : String → Bool
unfolding trim_space to_lower codes_eq
routable_plan plan =
    let p = to_lower (trim_space (codes plan)) in
    not (
      codes_eq p (codes "free") || codes_eq p (codes "business") || codes_eq p (codes "enterprise"))
