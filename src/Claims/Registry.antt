-- ===== src/Claims/Registry.antt =====
-- The registry of provisional route claims: internal/app/route_claims.go. A pointer to a claim is the
-- claim's id, under which `by_id` holds its record; the mutex makes each method one step; a nil map is
-- an empty one. `refs` is never decremented below 0 (Claims/Invariant).
use codex_balancer.Prelude.{
  ℕ, ◌==◌, if◌then◌else◌, Bool, false, not, ◌&&◌, ◌||◌, Option, none, some, List, [], ◌∷◌, ◌++◌,
  String, str_eq, any,
}
use codex_balancer.Prelude.Maps.{id_eq, lookup, erase, insert}
use codex_balancer.Routing.Route.{RoutingReason}

pub record Claim : Type 0 where
  pub id : ℕ
  pub account : String
  pub prior_owner : String
  pub reason : RoutingReason
  pub keys : List String
  pub refs : ℕ
  pub accepted : Bool
  pub committed : Bool

pub record Registry : Type 0 where
  pub next : ℕ
  pub by_key : List (String × ℕ)
  pub by_id : List (ℕ × Claim)
  pub barriers : List (String × String)

-- `once` is whether the handle's `sync.Once` has run.
pub record Handle : Type 0 where
  pub id : ℕ
  pub account : String
  pub once : Bool

-- `websocketRoute`.
pub record Route : Type 0 where
  pub session : String
  pub thread : String

pub record DurableOwners : Type 0 where
  pub thread : String
  pub session : String

abbrev pub empty_registry : Registry
empty_registry = record { next = 0; by_key = []; by_id = []; barriers = [] }

-- `slices.Contains`.
unfoldable pub has : String → List String → Bool
has k [] = false
has k (j ∷ ks) = str_eq j k || has k ks

unfoldable pub append_unique_owner : List String → String → List String
append_unique_owner owners owner =
    if not (str_eq owner "") && not (has owner owners) then owners ++ owner ∷ [] else owners

abbrev pub append_option : List String → Option String → List String
append_option owners none = owners
append_option owners (some owner) = append_unique_owner owners owner

unfoldable pub append_claim_owner : List String → Option Claim → List String
unfolding append_unique_owner
append_claim_owner owners none = owners
append_claim_owner owners (some claim) = append_unique_owner owners claim.account

unfoldable pub ordered : DurableOwners → List String
unfolding append_unique_owner
ordered o = append_unique_owner (append_unique_owner [] o.thread) o.session

unfoldable pub contains : DurableOwners → String → Bool
contains o account =
    not (str_eq account "") && (str_eq o.thread account || str_eq o.session account)

unfoldable pub route_claim_keys : Route → List String
route_claim_keys route =
    let session =
      if not (str_eq route.session "") && not (str_eq route.session route.thread)
      then route.session ∷ []
      else [] in
    if not (str_eq route.thread "") then route.thread ∷ session else session

abbrev pub claim_of : Registry → Option ℕ → Option Claim
claim_of r none = none
claim_of r (some i) = lookup id_eq i r.by_id

-- `r.byKey[key]`, with the claim that it points to. A key whose id is no longer listed is read as
-- none here, where Go's pointer would outlive the claim; `by_key` itself still shows such a key.
unfoldable pub claim_at : Registry → String → Option Claim
claim_at r key = claim_of r (lookup str_eq key r.by_key)

abbrev pub barrier_at : Registry → String → Option String
barrier_at r key = lookup str_eq key r.barriers

-- `slices.Contains(claims, claim)`, on pointers.
unfoldable pub has_claim : ℕ → List Claim → Bool
has_claim i [] = false
has_claim i (c ∷ cs) = c.id == i || has_claim i cs

abbrev pub add_claim : List Claim → Option Claim → List Claim
add_claim claims none = claims
add_claim claims (some c) = if has_claim c.id claims then claims else claims ++ c ∷ []

unfoldable pub claims_from : Registry → List Claim → List String → List Claim
claims_from r claims [] = claims
claims_from r claims (key ∷ keys) = claims_from r (add_claim claims (claim_at r key)) keys

unfoldable pub claims_for_keys : Registry → List String → List Claim
claims_for_keys r keys = claims_from r [] keys

unfoldable pub claim_conflicts : Claim → List Claim → Bool
claim_conflicts selected claims =
    any (λ c. not (c.id == selected.id) && not (str_eq c.account selected.account)) claims

-- The loop of `attachKeys`, on the map and the claim's keys.
unfoldable pub attach_keys :
    ℕ → List String → List (String × ℕ) → List String → List (String × ℕ) × List String
attach_keys i [] by_key held = (by_key, held)
attach_keys i (key ∷ keys) by_key held =
    let taken = attach_keys i keys by_key held in
    let free = attach_keys i keys (insert str_eq key i by_key) (held ++ key ∷ []) in
    elim (lookup str_eq key by_key) [ some j ↦ taken | none ↦ free ]

-- The claim at its new value, with further keys attached.
unfoldable pub put_attached : Registry → Claim → List String → Registry
put_attached r claim keys =
    let attached = attach_keys claim.id keys r.by_key claim.keys in
    record r {
      by_key = attached.0;
      by_id = insert id_eq claim.id (record claim { keys = attached.1 }) r.by_id;
    }

-- The loop of `detachKeysLocked`.
abbrev pub points_to : Option ℕ → ℕ → Bool
points_to none i = false
points_to (some j) i = j == i

unfoldable pub detach_keys : ℕ → List String → List (String × ℕ) → List (String × ℕ)
detach_keys i [] by_key = by_key
detach_keys i (key ∷ keys) by_key =
    detach_keys i keys
      (if points_to (lookup str_eq key by_key) i then erase str_eq key by_key else by_key)

unfoldable pub remove_locked : Registry → Claim → Registry
remove_locked r claim = record r {
  by_id = erase id_eq claim.id r.by_id;
  by_key = detach_keys claim.id claim.keys r.by_key;
}

abbrev pub handle : Claim → Handle
handle claim = record { id = claim.id; account = claim.account; once = false }
