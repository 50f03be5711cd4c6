-- ===== src/Claims/Select.antt =====
-- `selectAccount` and `selectReplacement` of internal/app/route_claims.go. `pick` is the closure that
-- the server passes, `pickAccount` on the owners.
use codex_balancer.Prelude.{
  ℕ, ◌+◌, ◌%◌, ◌^◌, if◌then◌else◌, Bool, true, false, not, Option, none, some, List, [], ◌∷◌,
  String, str_eq,
}
use codex_balancer.Prelude.Maps.{id_eq, lookup}
use codex_balancer.Routing.Candidate.{Candidate}
use codex_balancer.Routing.Route.{Decision, provisional_claim, provisional_conflict, unset}
use codex_balancer.Claims.Registry.{
  Claim, Registry, Handle, Route, DurableOwners, append_unique_owner, append_option,
  append_claim_owner, ordered, contains, route_claim_keys, claim_at, barrier_at, claims_for_keys,
  claim_conflicts, put_attached, handle,
}

-- `claimedRoutingDecision`.
pub record Claimed : Type 0 where
  pub decision : Decision
  pub claim : Option Handle
  pub joined : Bool

-- The owners that `selectAccount` and `selectReplacement` order first.
abbrev key_owners : Registry → String → List String → List String
key_owners r key owners =
    if str_eq key ""
    then owners
    else append_option (append_claim_owner owners (claim_at r key)) (barrier_at r key)

unfoldable pub route_owners : Registry → Route → DurableOwners → List String
route_owners r route durable =
    let by_thread = append_unique_owner (key_owners r route.thread []) durable.thread in
    append_unique_owner (key_owners r route.session by_thread) durable.session

claim_owners : List String → List Claim → List String
claim_owners owners [] = owners
claim_owners owners (c ∷ cs) = claim_owners (append_unique_owner owners c.account) cs

barrier_owners : Registry → List String → List String → List String
barrier_owners r owners [] = owners
barrier_owners r owners (key ∷ keys) =
    barrier_owners r (append_option owners (barrier_at r key)) keys

unfoldable pub select_owners : Registry → Route → DurableOwners → List String
unfolding route_owners claim_owners barrier_owners
select_owners r route durable =
    let keys = route_claim_keys route in
    barrier_owners r (claim_owners (route_owners r route durable) (claims_for_keys r keys)) keys

abbrev pub unclaimed : Decision → Claimed
unclaimed d = record { decision = d; claim = none; joined = false }

abbrev pub conflict : Decision → String → Claimed
conflict d owner =
    unclaimed (record d { account = none; blocked = owner; reason = provisional_conflict })

-- The first claim of the selected account.
unfoldable pub claim_for : String → List Claim → Option Claim
claim_for selected [] = none
claim_for selected (c ∷ cs) = if str_eq c.account selected then some c else claim_for selected cs

unfoldable pub join_claim :
    Registry → Decision → List String → List Claim → Claim → Registry × Claimed
join_claim r d keys claims claim =
    if claim_conflicts claim claims then (r, conflict d claim.account) else (
      put_attached r (record claim { refs = claim.refs + 1 }) keys,
      record {
        decision = record d {
          prior_owner = claim.prior_owner;
          reason = if str_eq claim.prior_owner "" then provisional_claim else claim.reason;
        };
        claim = some (handle claim);
        joined = true;
      },
    )

abbrev pub fresh_id : Registry → ℕ
fresh_id r = (r.next + 1) % 2 ^ 64

abbrev pub new_claim : Registry → Decision → String → Claim
new_claim r d selected = record {
  id = fresh_id r;
  account = selected;
  prior_owner = d.prior_owner;
  reason = d.reason;
  keys = [];
  refs = 1;
  accepted = false;
  committed = false;
}

unfoldable pub open_claim : Registry → Decision → List String → String → Registry × Claimed
open_claim r d keys selected =
    let claim = new_claim r d selected in
    (
      put_attached (record r { next = fresh_id r }) claim keys,
      record { decision = d; claim = some (handle claim); joined = false },
    )

unfoldable pub competing :
    Registry → Decision → DurableOwners → List String → String → List Claim → Registry × Claimed
unfolding open_claim
competing r d durable keys selected claims =
    if contains durable selected
    then (r, unclaimed d)
    else elim claims [ [] ↦ open_claim r d keys selected | c ∷ cs ↦ (r, conflict d c.account) ]

abbrev pub claimed_by :
    Registry
    → Decision
    → DurableOwners
    → List String
    → String
    → List Claim
    → Option Claim
    → Registry × Claimed
claimed_by r d durable keys selected claims none = competing r d durable keys selected claims
claimed_by r d durable keys selected claims (some c) = join_claim r d keys claims c

abbrev pub decide_claim :
    Registry
    → Decision
    → DurableOwners
    → List String
    → List Claim
    → Option Candidate
    → Registry × Claimed
decide_claim r d durable keys claims none = (r, unclaimed d)
decide_claim r d durable keys claims (some c) =
    claimed_by r d durable keys c.id claims (claim_for c.id claims)

abbrev pub select_with :
    Registry → Route → DurableOwners → (List String → Decision) → List String → Registry × Claimed
select_with r route durable pick [] = (r, unclaimed (pick (ordered durable)))
select_with r route durable pick (k ∷ ks) =
    let d = pick (select_owners r route durable) in
    decide_claim r d durable (k ∷ ks) (claims_for_keys r (k ∷ ks)) d.account

unfoldable pub select_account :
    Registry → Route → DurableOwners → (List String → Decision) → Registry × Claimed
unfolding competing join_claim
select_account r route durable pick = select_with r route durable pick (route_claim_keys route)

-- `routingDecision{blocked: owner}`.
abbrev blocked_decision : String → Claimed
blocked_decision owner = unclaimed (record {
  account = none;
  blocked = owner;
  prior_owner = "";
  reason = unset;
  candidates = [];
  now = 0;
  credit_fallback = false;
  retry_at = 0;
})

abbrev replacement_of : Decision → Claim → Option Candidate → Claimed
replacement_of d claim none = unclaimed d
replacement_of d claim (some c) =
    if str_eq c.id claim.account
    then unclaimed (record d { account = none; blocked = claim.account })
    else unclaimed d

abbrev replacement_for :
    Registry → Route → DurableOwners → (List String → Decision) → Handle → Option Claim → Claimed
replacement_for r route durable pick h none = blocked_decision h.account
replacement_for r route durable pick h (some claim) =
    if not (str_eq claim.account h.account)
    then blocked_decision h.account
    else let d = pick (route_owners r route durable) in replacement_of d claim d.account

-- `selectReplacement` decides without changing the registry; `none` is a nil handle, and a handle of
-- another registry does not arise.
unfoldable pub select_replacement :
    Registry → Route → Option Handle → DurableOwners → (List String → Decision) → Claimed
select_replacement r route none durable pick = blocked_decision ""
select_replacement r route (some h) durable pick =
    replacement_for r route durable pick h (lookup id_eq h.id r.by_id)
