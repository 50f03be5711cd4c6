-- ===== src/Claims/Lifecycle.antt =====
-- What becomes of a claim: the other methods of internal/app/route_claims.go. A handle's methods run
-- once, by its `sync.Once`; on a nil handle they do nothing.
use Prim.Native.String.{compare as string_compare}
use codex_balancer.Prelude.{
  ℕ, ◌-◌, ◌==◌, if◌then◌else◌, is_lt, Bool, true, false, ◌||◌, Option, none, some, List, [], ◌∷◌,
  ◌++◌, String, str_eq,
}
use codex_balancer.Prelude.Maps.{id_eq, lookup, erase, insert}
use codex_balancer.Routing.Route.{RoutingReason}
use codex_balancer.Claims.Registry.{
  Claim, Registry, Handle, has, detach_keys, remove_locked, handle,
}

-- The claim under an id, if it still stands for the account.
abbrev pub same_account : String → Option Claim → Option Claim
same_account account none = none
same_account account (some c) = if str_eq c.account account then some c else none

unfoldable pub held_claim : Registry → ℕ → String → Option Claim
held_claim r i account = same_account account (lookup id_eq i r.by_id)

abbrev pub put_claim : Registry → Claim → Registry
put_claim r claim = record r { by_id = insert id_eq claim.id claim r.by_id }

abbrev pub release_claim : Registry → Option Claim → Registry
release_claim r none = r
release_claim r (some c) =
    let d = record c { refs = c.refs - 1 } in
    if d.refs == 0 then remove_locked r d else put_claim r d

unfoldable pub release : Registry → ℕ → String → Registry
release r i account = release_claim r (held_claim r i account)

abbrev pub remove_claim : Registry → Option Claim → Registry
remove_claim r none = r
remove_claim r (some c) = remove_locked r c

unfoldable pub remove : Registry → ℕ → Registry
remove r i = remove_claim r (lookup id_eq i r.by_id)

unfoldable pub erase_all : List String → List (String × String) → List (String × String)
erase_all [] barriers = barriers
erase_all (key ∷ keys) barriers = erase_all keys (erase str_eq key barriers)

unfoldable pub clear_barriers : Registry → List String → Registry
clear_barriers r keys = record r { barriers = erase_all keys r.barriers }

abbrev pub commit_claim : Registry → List String → Option Claim → Registry
commit_claim r accepted_keys none = r
commit_claim r accepted_keys (some c) =
    let d = record c { committed = true; refs = c.refs - 1 } in
    record r {
      barriers = erase_all accepted_keys r.barriers;
      by_key = if c.committed then r.by_key else detach_keys c.id c.keys r.by_key;
      by_id = if d.refs == 0 then erase id_eq d.id r.by_id else insert id_eq d.id d r.by_id;
    }

unfoldable pub commit : Registry → ℕ → String → List String → Registry
commit r i account accepted_keys = commit_claim r accepted_keys (held_claim r i account)

-- `slices.Sort` on keys.
insert_key : String → List String → List String
insert_key k [] = k ∷ []
insert_key k (j ∷ ks) =
    let rest = insert_key k ks in if is_lt (string_compare j k) then j ∷ rest else k ∷ j ∷ ks

unfoldable pub sort_keys : List String → List String
unfolding insert_key
sort_keys [] = []
sort_keys (k ∷ ks) = insert_key k (sort_keys ks)

unfoldable pub raise_barriers :
    String → List String → List (String × String) → List (String × String)
raise_barriers account [] barriers = barriers
raise_barriers account (key ∷ keys) barriers =
    raise_barriers account keys (insert str_eq key account barriers)

abbrev pub preserve_claim : Registry → String → Option Claim → Registry × List String
preserve_claim r account none = (r, [])
preserve_claim r account (some c) =
    let s = record r { barriers = raise_barriers account c.keys r.barriers } in
    (remove_locked s c, sort_keys c.keys)

unfoldable pub preserve : Registry → ℕ → String → Registry × List String
preserve r i account = preserve_claim r account (held_claim r i account)

abbrev pub transfer_claim :
    Registry → String → String → RoutingReason → Option Claim → Registry × Option Handle
transfer_claim r to prior_owner reason none = (r, none)
transfer_claim r to prior_owner reason (some c) =
    if c.accepted || c.committed
    then (r, none)
    else let d = record c { account = to; prior_owner = prior_owner; reason = reason; refs = 1 } in
      (put_claim r d, some (handle d))

unfoldable pub transfer :
    Registry → ℕ → String → String → String → RoutingReason → Registry × Option Handle
transfer r i from to prior_owner reason =
    transfer_claim r to prior_owner reason (held_claim r i from)

-- `result.keys = append(result.keys, key)`, unless the key was seen.
unfoldable pub see_keys : List String → List String → List String
see_keys [] seen = seen
see_keys (key ∷ keys) seen = see_keys keys (if has key seen then seen else seen ++ key ∷ [])

-- One claim of the loop of `invalidateAccount`, reached through its pointer; the number of claims and
-- the keys are its result.
abbrev pub invalidate_claim :
    String → Registry × ℕ × List String → Option Claim → Registry × ℕ × List String
invalidate_claim account (r, n, keys) none = (r, n, keys)
invalidate_claim account (r, n, keys) (some c) =
    if str_eq c.account account
    then (
      remove_locked (record r { barriers = raise_barriers account c.keys r.barriers }) c,
      ℕ.suc n,
      see_keys c.keys keys,
    )
    else (r, n, keys)

unfoldable pub invalidate_claims :
    String → Registry × ℕ × List String → List (ℕ × Claim) → Registry × ℕ × List String
invalidate_claims account s [] = s
invalidate_claims account (r, n, keys) ((i, c) ∷ cs) =
    invalidate_claims account (invalidate_claim account (r, n, keys) (lookup id_eq i r.by_id)) cs

-- `invalidateAccount`, with the number of claims and the sorted keys of the result.
unfoldable pub invalidate_account : Registry → String → Registry × ℕ × List String
unfolding invalidate_claims
invalidate_account r account =
    let (s, n, keys) = invalidate_claims account (r, 0, []) r.by_id in (s, n, sort_keys keys)

-- `active` and `acceptSwitch` of a handle.
unfoldable pub active : Registry → Handle → Bool
unfolding held_claim
active r h = elim (held_claim r h.id h.account) [ none ↦ false | some c ↦ true ]

abbrev pub accept_claim : Registry → Option Claim → Registry × Bool
accept_claim r none = (r, false)
accept_claim r (some c) =
    if c.accepted then (r, false) else (put_claim r (record c { accepted = true }), true)

unfoldable pub accept_switch : Registry → Handle → Registry × Bool
accept_switch r h = accept_claim r (held_claim r h.id h.account)

-- The methods of a handle, with the handle as they leave it.
unfoldable pub release_handle : Registry → Handle → Registry × Handle
release_handle r h = (if h.once then r else release r h.id h.account, record h { once = true })

unfoldable pub commit_handle : Registry → Handle → List String → Registry × Handle
commit_handle r h keys =
    (if h.once then r else commit r h.id h.account keys, record h { once = true })

unfoldable pub preserve_handle : Registry → Handle → Registry × List String × Handle
preserve_handle r h =
    if h.once
    then (r, [], h)
    else let (s, keys) = preserve r h.id h.account in (s, keys, record h { once = true })

unfoldable pub transfer_handle :
    Registry → Handle → String → String → RoutingReason → Registry × Option Handle × Handle
transfer_handle r h account prior_owner reason =
    if str_eq account "" || h.once
    then (r, none, h)
    else let (s, moved) = transfer r h.id h.account account prior_owner reason in
      (s, moved, record h { once = true })
