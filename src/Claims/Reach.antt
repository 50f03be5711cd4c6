-- ===== src/Claims/Reach.antt =====
-- The registry as a state machine: the methods in any order, by any callers.
use codex_balancer.Prelude.{ℕ, ◌+◌, ◌^◌, ◌<◌, List, String}
use codex_balancer.Routing.Route.{Decision, RoutingReason}
use codex_balancer.Claims.Registry.{Registry, Handle, Route, DurableOwners, empty_registry}
use codex_balancer.Claims.Select.{select_account}
use codex_balancer.Claims.Lifecycle.{
  release, remove, clear_barriers, commit, preserve, transfer, invalidate_account, accept_switch,
}
use codex_balancer.Claims.Invariant.{RegistryInv}
use codex_balancer.Claims.Preservation.{
  empty-RegistryInv, release-RegistryInv, remove-RegistryInv, clear_barriers-RegistryInv,
  commit-RegistryInv, preserve-RegistryInv, transfer-RegistryInv, invalidate_account-RegistryInv,
  accept_switch-RegistryInv,
}
use codex_balancer.Claims.Selection.{select_account-RegistryInv}

-- A selection is made while the counter of ids has room below 2 ^ 64.
pub data Step (r : Registry) : Registry → Type 0 where
  selects :
      (route : Route) (durable : DurableOwners) (pick : List String → Decision)
      → r.next + 1 < 2 ^ 64
      → Step r (select_account r route durable pick).0
  releases : (i : ℕ) (account : String) → Step r (release r i account)
  removes : (i : ℕ) → Step r (remove r i)
  clears : (keys : List String) → Step r (clear_barriers r keys)
  commits : (i : ℕ) (account : String) (keys : List String) → Step r (commit r i account keys)
  preserves : (i : ℕ) (account : String) → Step r (preserve r i account).0
  transfers :
      (i : ℕ) (from to prior : String) (reason : RoutingReason)
      → Step r (transfer r i from to prior reason).0
  invalidates : (account : String) → Step r (invalidate_account r account).0
  accepts : (h : Handle) → Step r (accept_switch r h).0

pub data Reach : Registry → Type 0 where
  start : Reach empty_registry
  later : {r s : Registry} → Reach r → Step r s → Reach s

Step-RegistryInv : {r s : Registry} → Step r s → RegistryInv r → RegistryInv s
Step-RegistryInv {r} (selects route durable pick room) v =
    select_account-RegistryInv r v route durable pick room
Step-RegistryInv {r} (releases i account) v = release-RegistryInv r v i account
Step-RegistryInv {r} (removes i) v = remove-RegistryInv r v i
Step-RegistryInv {r} (clears keys) v = clear_barriers-RegistryInv r v keys
Step-RegistryInv {r} (commits i account keys) v = commit-RegistryInv r v i account keys
Step-RegistryInv {r} (preserves i account) v = preserve-RegistryInv r v i account
Step-RegistryInv {r} (transfers i from to prior reason) v =
    transfer-RegistryInv r v i from to prior reason
Step-RegistryInv {r} (invalidates account) v = invalidate_account-RegistryInv r v account
Step-RegistryInv {r} (accepts h) v = accept_switch-RegistryInv r v h

-- However the methods are interleaved, selections being made while the counter of ids has room: a
-- key points to a live, uncommitted claim that lists it; an uncommitted claim holds every key that
-- it lists, so that no two share one; and every claim stands under its own id, which is not newer
-- than the counter, and is referred to at least once.
pub Reach-RegistryInv : {r : Registry} → Reach r → RegistryInv r
Reach-RegistryInv start = empty-RegistryInv
Reach-RegistryInv (later reach step) = Step-RegistryInv step (Reach-RegistryInv reach)
