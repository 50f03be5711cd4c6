-- ===== src/Pool/Reconcile.antt =====
-- The pool follows its store: `reconcile` of internal/app/pool_store.go. An account object is its
-- address with its fields; a nil entry of the map is `none`.
use codex_balancer.Prelude.{
  ℕ, ◌+◌, ◌==◌, ltb, if◌then◌else◌, Bool, false, not, ◌&&◌, Option, none, some, List, [], ◌∷◌, ◌++◌,
  String, str_eq, length,
}
use codex_balancer.Account.State.{Tokens, Account, apply_persisted, id}
use codex_balancer.Routing.Candidate.{Candidate, routing_candidate, routing_enabled}
use codex_balancer.Routing.Route.{
  RoutingReason, owner_removed, owner_paused, owner_signed_out, owner_not_routable,
}
use codex_balancer.Prelude.Maps.{lookup, erase, insert}

-- A pointer to an account.
pub record Object : Type 0 where
  pub address : ℕ
  pub account : Account

pub record AccountUnavailable : Type 0 where
  pub id : String
  pub reason : RoutingReason

pub record PoolChange : Type 0 where
  pub added : ℕ
  pub removed : ℕ
  pub updated : ℕ
  pub unavailable : List AccountUnavailable

unfoldable pub changed : PoolChange → Bool
changed c = ltb 0 (c.added + c.removed + c.updated)

-- `none` is the empty reason.
unfoldable pub account_became_unavailable : Candidate → Candidate → Option RoutingReason
account_became_unavailable before after =
    if not before.paused && after.paused
    then some owner_paused
    else if str_eq before.reauth "" && not (str_eq after.reauth "")
    then some owner_signed_out
    else if routing_enabled before && not (routing_enabled after)
    then some owner_not_routable
    else none

abbrev pub report :
    String → Option RoutingReason → List AccountUnavailable → List AccountUnavailable
report id none unavailable = unavailable
report id (some reason) unavailable = unavailable ++ record { id = id; reason = reason } ∷ []

removed_ids : List (String × Object) → List AccountUnavailable
removed_ids [] = []
removed_ids ((id, o) ∷ current) = record { id = id; reason = owner_removed } ∷ removed_ids current

module _ ⦃tokens : Tokens⦄ where
  unfoldable pub current_map : List (String × Object) → List Object → List (String × Object)
  current_map m [] = m
  current_map m (o ∷ objects) = current_map (insert str_eq (id o.account) o m) objects

  -- What becomes of an object that the pool has: with whether it counts as updated, and why it became
  -- unavailable.
  unfoldable pub refreshed : Object → Object → Object × Bool × Option RoutingReason
  unfolding apply_persisted account_became_unavailable routing_candidate
  refreshed existing stored =
      if existing.address == stored.address
      then (existing, false, none)
      else let (a, updated) = apply_persisted existing.account stored.account.state in
        let before = routing_candidate existing.address existing.account in
        let after = routing_candidate existing.address a in
        (record existing { account = a }, updated, account_became_unavailable before after)

  -- The body of the loop, on the map, the next accounts and the change so far.
  abbrev pub follow :
      List (String × Object)
      → List Object × PoolChange
      → Object
      → Option Object
      → List (String × Object) × List Object × PoolChange
  follow current (next, change) stored none =
      (current, next ++ stored ∷ [], record change { added = change.added + 1 })
  follow current (next, change) stored (some existing) =
      let (o, updated, reason) = refreshed existing stored in
      (
        erase str_eq (id stored.account) current,
        next ++ o ∷ [],
        record change {
          updated = if updated then change.updated + 1 else change.updated;
          unavailable = report (id stored.account) reason change.unavailable;
        },
      )

  unfoldable pub follow_all :
      List (String × Object)
      → List Object × PoolChange
      → List Object
      → List (String × Object) × List Object × PoolChange
  unfolding refreshed
  follow_all current (next, change) [] = (current, next, change)
  follow_all current (next, change) (stored ∷ objects) =
      let (current', next', change') =
        follow current (next, change) stored (lookup str_eq (id stored.account) current) in
      follow_all current' (next', change') objects

  abbrev pub no_change : PoolChange
  no_change = record { added = 0; removed = 0; updated = 0; unavailable = [] }

  -- `reconcile` on the pool's accounts and the stored ones; the ids left in the map are reported in
  -- the list's order.
  unfoldable pub reconcile : List Object → List Object → List Object × PoolChange
  unfolding follow_all current_map removed_ids
  reconcile accounts stored =
      let (left, next, change) = follow_all (current_map [] accounts) ([], no_change) stored in
      (
        next,
        record change {
          removed = length left;
          unavailable = change.unavailable ++ removed_ids left;
        },
      )
