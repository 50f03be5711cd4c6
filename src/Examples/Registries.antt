-- ===== src/Examples/Registries.antt =====
-- The theorems on the registry of claims, at a registry that holds one claim.
use codex_balancer.Prelude.{
  ◌≡◌, ◌≢◌, refl, ◌⊎◌, true, false, some, [], ◌∷◌, String, str_eq, List, arith,
}
use codex_balancer.Routing.Route.{Decision, unset}
use codex_balancer.Claims.Registry.{
  Claim, Registry, Handle, Route, DurableOwners, empty_registry, has, claim_at, contains,
  route_claim_keys,
}
use codex_balancer.Claims.Select.{select_account}
use codex_balancer.Claims.Invariant.{RegistryInv}
use codex_balancer.Claims.Reach.{Reach, start, later, selects, Reach-RegistryInv}
use codex_balancer.Prelude.Maps.{id_eq, lookup}
use codex_balancer.Claims.Lifecycle.{invalidate_account}
use codex_balancer.Claims.Invalidation.{invalidate_account_removes, invalidate_account_detaches}
use codex_balancer.Claims.Handles.{HeldFor, select_account-HeldFor}
use codex_balancer.Claims.Pinning.{select_account_honours}
use codex_balancer.Examples.Data.{now, first}

abbrev no_owners : DurableOwners
no_owners = record { thread = ""; session = "" }

abbrev thread_route : Route
thread_route = record { session = "s"; thread = "t" }

-- Another thread of the session.
abbrev sibling_route : Route
sibling_route = record { session = "s"; thread = "u" }

abbrev pub picks_first : List String → Decision
picks_first owners = record {
  account = some first;
  blocked = "";
  prior_owner = "";
  reason = unset;
  candidates = first ∷ [];
  now = now;
  credit_fallback = false;
  retry_at = 0;
}

abbrev pub claimed : Registry
claimed = (select_account empty_registry thread_route no_owners picks_first).0

pub claimed_reached : Reach claimed
claimed_reached = later start (selects thread_route no_owners picks_first (omega arith))

Reach-RegistryInv_example : RegistryInv claimed
Reach-RegistryInv_example = Reach-RegistryInv claimed_reached

abbrev pub first_claim : Claim
first_claim = record {
  id = 1;
  account = "first";
  prior_owner = "";
  reason = unset;
  keys = "t" ∷ "s" ∷ [];
  refs = 1;
  accepted = false;
  committed = false;
}

session_key : has "s" (route_claim_keys sibling_route) ≡ true
unfolding has route_claim_keys
session_key = refl

session_claimed : claim_at claimed "s" ≡ some first_claim
unfolding claim_at select_account codex_balancer.Prelude.Maps.lookup route_claim_keys
    codex_balancer.Claims.Select.claim_for codex_balancer.Claims.Registry.claims_for_keys
    codex_balancer.Claims.Registry.claims_from contains codex_balancer.Claims.Registry.put_attached
    codex_balancer.Claims.Registry.attach_keys codex_balancer.Prelude.Maps.insert
    codex_balancer.Prelude.Maps.erase
session_claimed = refl

sibling_chosen :
    (select_account claimed sibling_route no_owners picks_first).1.decision.account ≡ some first
unfolding select_account route_claim_keys codex_balancer.Claims.Select.claim_for
    codex_balancer.Claims.Registry.claims_for_keys codex_balancer.Claims.Registry.claims_from
    claim_at codex_balancer.Prelude.Maps.lookup contains codex_balancer.Claims.Registry.put_attached
    codex_balancer.Claims.Registry.attach_keys codex_balancer.Prelude.Maps.insert
    codex_balancer.Prelude.Maps.erase codex_balancer.Claims.Registry.has_claim
    codex_balancer.Claims.Registry.claim_conflicts
sibling_chosen = refl

-- A sibling thread joins the claim of the session.
select_account_honours_example : ("first" ≡ first.id) ⊎ (contains no_owners first.id ≡ true)
select_account_honours_example =
    select_account_honours claimed (Reach-RegistryInv claimed_reached) sibling_route no_owners
      picks_first "s" first_claim first session_key session_claimed sibling_chosen

abbrev other_account : String
other_account = "second"

claim_left : lookup id_eq 1 (invalidate_account claimed other_account).0.by_id ≡ some first_claim
unfolding invalidate_account lookup select_account route_claim_keys
    codex_balancer.Claims.Select.claim_for codex_balancer.Claims.Registry.claims_for_keys
    codex_balancer.Claims.Registry.claims_from claim_at contains
    codex_balancer.Claims.Registry.put_attached codex_balancer.Prelude.Maps.insert
    codex_balancer.Prelude.Maps.erase codex_balancer.Claims.Registry.attach_keys
claim_left = refl

invalidate_account_removes_example :
    (lookup id_eq 1 claimed.by_id ≡ some first_claim) × (first_claim.account ≢ other_account)
invalidate_account_removes_example =
    invalidate_account_removes claimed other_account (Reach-RegistryInv claimed_reached) 1
      first_claim claim_left

key_left : lookup str_eq "s" (invalidate_account claimed other_account).0.by_key ≡ some 1
unfolding invalidate_account claim_at lookup select_account route_claim_keys
    codex_balancer.Claims.Select.claim_for codex_balancer.Claims.Registry.claims_for_keys
    codex_balancer.Claims.Registry.claims_from contains codex_balancer.Claims.Registry.put_attached
    codex_balancer.Prelude.Maps.insert codex_balancer.Prelude.Maps.erase
    codex_balancer.Claims.Registry.attach_keys
key_left = refl

invalidate_account_detaches_example :
    (c : Claim) × (lookup id_eq 1 (invalidate_account claimed other_account).0.by_id ≡ some c)
    × (c.account ≢ other_account)
invalidate_account_detaches_example =
    invalidate_account_detaches claimed other_account (Reach-RegistryInv claimed_reached) "s" 1
      key_left

-- The sibling's own key is attached to the claim that it joins.
abbrev joined_handle : Handle
joined_handle = record { id = 1; account = "first"; once = false }

sibling_key : has "u" (route_claim_keys sibling_route) ≡ true
unfolding has route_claim_keys
sibling_key = refl

sibling_joined :
    (select_account claimed sibling_route no_owners picks_first).1.claim ≡ some joined_handle
unfolding select_account route_claim_keys codex_balancer.Claims.Select.claim_for
    codex_balancer.Claims.Registry.claims_for_keys codex_balancer.Claims.Registry.claims_from
    claim_at lookup contains codex_balancer.Claims.Registry.put_attached
    codex_balancer.Claims.Registry.attach_keys codex_balancer.Prelude.Maps.insert
    codex_balancer.Prelude.Maps.erase codex_balancer.Claims.Registry.has_claim
    codex_balancer.Claims.Registry.claim_conflicts
sibling_joined = refl

select_account-HeldFor_example :
    HeldFor (select_account claimed sibling_route no_owners picks_first).0 "u" "first"
select_account-HeldFor_example =
    select_account-HeldFor claimed (Reach-RegistryInv claimed_reached) "u" sibling_route no_owners
      picks_first joined_handle sibling_key sibling_joined
