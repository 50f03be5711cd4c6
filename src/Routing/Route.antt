-- ===== src/Routing/Route.antt =====
-- `Pool.route` of internal/app/pool.go, `cooldownRecovery` of routing_retry.go, and `pickAccount` and
-- `routingDecisionReason` of logging.go. `skip` and `allowed` are maps to bool, a missing key false;
-- `none` is the nil map of `allowed`. `account` is the candidate whose account was chosen.
pub mod Owners
pub mod Safety
pub mod Affinity
pub mod Recovery
use codex_balancer.Prelude.{
  if◌then◌else◌, Bool, true, false, not, ◌&&◌, ◌||◌, Option, none, some, List, [], ◌∷◌, String,
  str_eq, find_first,
}
use codex_balancer.Account.Window.{Time, after, before, is_zero}
use codex_balancer.Routing.Candidate.{
  Candidate, weekly_exhausted, included_routing, routing_enabled, quota_known, signed_in,
  credit_available, available,
}
use codex_balancer.Routing.Select.{select_fresh_account}

pub data RoutingReason : Type 0 where
  fresh retained provisional_claim provisional_conflict owner_removed owner_paused : RoutingReason
  owner_signed_out owner_spent owner_not_routable owner_model_incompatible : RoutingReason
  owner_attempt_failed owner_unavailable unset : RoutingReason

pub record Decision : Type 0 where
  pub account : Option Candidate
  pub blocked : String
  pub prior_owner : String
  pub reason : RoutingReason
  pub candidates : List Candidate
  pub now : Time
  pub credit_fallback : Bool
  pub retry_at : Time

abbrev pub account_id : Option Candidate → String
account_id none = ""
account_id (some c) = c.id

abbrev pub chosen : Option Candidate → Bool
chosen none = false
chosen (some c) = true

unfoldable pub moved : Decision → Bool
moved d =
    not (str_eq d.prior_owner "")
    && chosen d.account
    && not (str_eq d.prior_owner (account_id d.account))

abbrev pub account_allowed : Option (String → Bool) → String → Bool
account_allowed none id = true
account_allowed (some allowed) id = allowed id

-- The candidates that a retry hint is about: the blocked owner alone, or all that are allowed.
abbrev pub considered : String → Option (String → Bool) → Candidate → Bool
considered blocked allowed c =
    if not (str_eq blocked "") then str_eq c.id blocked else account_allowed allowed c.id

-- It cools down now, and could serve once it has cooled down.
unfoldable pub recovers : Decision → Option (String → Bool) → Candidate → Bool
recovers d allowed c =
    let cooled = record c { cooldown = 0 } in
    considered d.blocked allowed c
    && after c.cooldown d.now
    && (available cooled d.now || credit_available cooled d.now)

unfoldable pub recovery_from : Decision → Option (String → Bool) → Time → List Candidate → Time
recovery_from d allowed earliest [] = earliest
recovery_from d allowed earliest (c ∷ cs) =
    recovery_from d allowed
      (if recovers d allowed c && (is_zero earliest || before c.cooldown earliest)
        then c.cooldown
        else earliest)
      cs

unfoldable pub cooldown_recovery : Decision → Option (String → Bool) → Time
unfolding recovery_from
cooldown_recovery d allowed = if chosen d.account then 0 else recovery_from d allowed 0 d.candidates

-- An owner that may keep its route, once its quota is known and its cooldown is over.
unfoldable pub keeps_route : Candidate → String → Bool
keeps_route c owner =
    str_eq c.id owner
    && included_routing c
    && not c.paused
    && signed_in c
    && not c.spent
    && not (weekly_exhausted c)

unfoldable pub waits : Candidate → Time → Bool
waits c now = not (quota_known c) || not (after now c.cooldown)

-- What the loop over the owners ends with: a blocked owner, a retained account, or neither.
pub data Owned : Type 0 where
  blocked_by : String → Owned
  retains : Candidate → Owned
  unowned : Owned

abbrev pub or_else : Owned → Owned → Owned
or_else (blocked_by owner) next = blocked_by owner
or_else (retains c) next = retains c
or_else unowned next = next

-- One round of the inner loop.
unfoldable pub owner_round : Time → (String → Bool) → String → Candidate → Owned
owner_round now skip owner c =
    if not (keeps_route c owner)
    then unowned
    else if waits c now
    then blocked_by owner
    else if not (skip c.id)
    then retains c
    else unowned

unfoldable pub owner_scan : Time → (String → Bool) → String → List Candidate → Owned
unfolding owner_round
owner_scan now skip owner [] = unowned
owner_scan now skip owner (c ∷ cs) =
    or_else (owner_round now skip owner c) (owner_scan now skip owner cs)

unfoldable pub owners_scan : Time → (String → Bool) → List Candidate → List String → Owned
owners_scan now skip candidates [] = unowned
owners_scan now skip candidates (owner ∷ owners) =
    or_else (owner_scan now skip owner candidates) (owners_scan now skip candidates owners)

abbrev pub owner_pays : Time → (String → Bool) → String → Candidate → Bool
owner_pays now skip owner c = str_eq c.id owner && not (skip c.id) && credit_available c now

-- The loops that let an owner pay with its credits.
unfoldable pub credit_owner :
    Time → (String → Bool) → List Candidate → List String → Option Candidate
credit_owner now skip candidates [] = none
credit_owner now skip candidates (owner ∷ owners) =
    let rest = credit_owner now skip candidates owners in
    elim (find_first (owner_pays now skip owner) candidates) [ none ↦ rest | some c ↦ some c ]

-- What may serve from included quota, and what from credits.
abbrev pub serves : Time → (String → Bool) → Candidate → Bool
serves now skip c = not (skip c.id) && available c now

abbrev pub pays : Time → (String → Bool) → Candidate → Bool
pays now skip c = not (skip c.id) && credit_available c now

abbrev pub head_or_empty : List String → String
head_or_empty [] = ""
head_or_empty (owner ∷ owners) = owner

abbrev pub initial_decision : Time → List Candidate → List String → Decision
initial_decision now candidates owners = record {
  account = none;
  blocked = "";
  prior_owner = head_or_empty owners;
  reason = unset;
  candidates = candidates;
  now = now;
  credit_fallback = false;
  retry_at = 0;
}

-- Neither an owner nor included quota: credits of an owner, then of any account.
unfoldable pub credit_route : Decision → (String → Bool) → Option Candidate → Decision
credit_route d skip (some c) = record d { account = some c; credit_fallback = true }
credit_route d skip none =
    let picked = select_fresh_account d.candidates d.now (pays d.now skip) in
    let e = record d { account = picked; credit_fallback = chosen picked } in
    record e { retry_at = cooldown_recovery e none }

unfoldable pub fresh_route : Decision → (String → Bool) → List String → Option Candidate → Decision
unfolding credit_route
fresh_route d skip owners (some c) = record d { account = some c }
fresh_route d skip owners none = credit_route d skip (credit_owner d.now skip d.candidates owners)

unfoldable pub owned_route : Decision → (String → Bool) → List String → Owned → Decision
unfolding fresh_route
owned_route d skip owners (blocked_by owner) =
    let e = record d { blocked = owner } in record e { retry_at = cooldown_recovery e none }
owned_route d skip owners (retains c) = record d { account = some c }
owned_route d skip owners unowned =
    fresh_route d skip owners (select_fresh_account d.candidates d.now (serves d.now skip))

unfoldable pub route : Time → List Candidate → List String → (String → Bool) → Decision
unfolding owned_route
route now candidates owners skip =
    owned_route (initial_decision now candidates owners) skip owners
      (owners_scan now skip candidates owners)

abbrev owner_reason : Option Candidate → RoutingReason
owner_reason none = owner_removed
owner_reason (some c) =
    if not (routing_enabled c)
    then owner_not_routable
    else if c.paused
    then owner_paused
    else if not (signed_in c)
    then owner_signed_out
    else if c.spent
    then owner_spent
    else owner_unavailable

unfoldable pub routing_decision_reason :
    Decision → Option (String → Bool) → (String → Bool) → RoutingReason
routing_decision_reason d allowed skip =
    if str_eq d.prior_owner ""
    then fresh
    else if chosen d.account && str_eq (account_id d.account) d.prior_owner
    then retained
    else if not (account_allowed allowed d.prior_owner)
    then owner_model_incompatible
    else if skip d.prior_owner
    then owner_attempt_failed
    else owner_reason (find_first (λ c. str_eq c.id d.prior_owner) d.candidates)

-- `routingSkip`: an account of the pool that the model excludes is skipped too.
abbrev pub routing_skip : List Candidate → Option (String → Bool) → (String → Bool) → String → Bool
routing_skip candidates none skip id = skip id
routing_skip candidates (some allowed) skip id =
    elim (find_first (λ c. str_eq c.id id && not (allowed c.id)) candidates) [
      | none ↦ skip id
      | some c ↦ true
    ]

-- The pool is read twice: `listed` when the accounts to skip are worked out, `candidates` in `route`.
unfoldable pub pick_account :
    Time
    → List Candidate
    → List Candidate
    → List String
    → Option (String → Bool)
    → (String → Bool)
    → Decision
unfolding routing_decision_reason
pick_account now listed candidates owners allowed skip =
    let d = route now candidates owners (routing_skip listed allowed skip) in
    let e = record d { retry_at = cooldown_recovery d allowed } in
    record e { reason = routing_decision_reason e allowed skip }
