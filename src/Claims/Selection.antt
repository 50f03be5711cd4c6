-- ===== src/Claims/Selection.antt =====
-- The claims that a selection looks at, and the consistency of the registry that it leaves.
use mathlib.Core.List.{Memᴰ}
use codex_balancer.Prelude.{
  ◌+◌, ◌^◌, ◌<◌, ◌≡◌, refl, inl, inr, false, Option, none, some, List, [], ◌∷◌, String, str_eq,
  eq_iff, arith, Bool-cases, Option-cases, All, All-append, All-mem,
}
use codex_balancer.Prelude.Maps.{id_eq, lookup, lookup-insert_id}
use codex_balancer.Routing.Candidate.{Candidate}
use codex_balancer.Routing.Route.{Decision}
use codex_balancer.Claims.Registry.{
  Claim, Registry, Route, DurableOwners, put_attached, claim_at, claim_of, add_claim, has_claim,
  claims_from, claims_for_keys, claim_conflicts, contains, route_claim_keys,
}
use codex_balancer.Claims.Select.{
  Claimed, conflict, claim_for, join_claim, fresh_id, new_claim, open_claim, competing, claimed_by,
  decide_claim, select_with, select_account,
}
use codex_balancer.Claims.Invariant.{RegistryInv, attach-IsConsistent}

-- An uncommitted claim of the registry.
abbrev pub Known : Registry → Claim → Type 0
Known r c = (lookup id_eq c.id r.by_id ≡ some c) × (c.committed ≡ false)

pub claim_for_lem :
    (account : String) (cs : List Claim) (c : Claim)
    → claim_for account cs ≡ some c
    → Memᴰ c cs × (c.account ≡ account)
unfolding claim_for
claim_for_lem account [] c h = cc
claim_for_lem account (d ∷ cs) c h = elim (Bool-cases (str_eq d.account account)) [
  | inl hit ↦
      let g : some d ≡ some c = rw hit at h in
      let e : c ≡ d = ground arith in (Memᴰ.head e, rw e ((eq_iff d.account account).0 hit))
  | inr miss ↦ let (m, a) = claim_for_lem account cs c (rw miss at h) in (Memᴰ.tail m, a)
]

module _ (r : Registry) (v : RegistryInv r) where
  pub claim_at-Known : (k : String) (c : Claim) → claim_at r k ≡ some c → Known r c
  unfolding claim_at
  claim_at-Known k c h = elim (Option-cases (lookup str_eq k r.by_key)) [
    | inl e ↦ let g : none ≡ some c = rw (e, claim_of) at h in absurd (cc)
    | inr (i, e) ↦
        let g : lookup id_eq i r.by_id ≡ some c = rw (e, claim_of) at h in
        let (d, here, _, fresh) = v.keyed k i e in
        let l = v.live i c g in (ground arith, ground arith)
  ]

  pub add_claim-Known :
      (acc : List Claim) (x : Option Claim)
      → ((c : Claim) → x ≡ some c → Known r c)
      → All (Known r) acc
      → All (Known r) (add_claim acc x)
  add_claim-Known acc none f a = a
  add_claim-Known acc (some c) f a = elim (Bool-cases (has_claim c.id acc)) [
    | inl old ↦ rw old a
    | inr new ↦ rw new (All-append (Known r) acc (c ∷ []) a (f c refl, tt))
  ]

  claims_from-Known :
      (acc : List Claim) (keys : List String)
      → All (Known r) acc
      → All (Known r) (claims_from r acc keys)
  unfolding claims_from
  claims_from-Known acc [] a = a
  claims_from-Known acc (k ∷ keys) a =
      claims_from-Known (add_claim acc (claim_at r k)) keys
        (add_claim-Known acc (claim_at r k) (claim_at-Known k) a)

  pub claims_for_keys-Known : (keys : List String) → All (Known r) (claims_for_keys r keys)
  unfolding claims_for_keys
  claims_for_keys-Known keys = claims_from-Known [] keys tt

  join-RegistryInv :
      (d : Decision) (keys : List String) (cs : List Claim) (c : Claim)
      → Known r c
      → RegistryInv (join_claim r d keys cs c).0
  unfolding join_claim put_attached
  join-RegistryInv d keys cs c (e, fresh) = elim (Bool-cases (claim_conflicts c cs)) [
    | inl clash ↦ rw clash v
    | inr fine ↦
        let l = v.live c.id c e in
        rw fine (
          attach-IsConsistent v (record c { refs = c.refs + 1 }) keys (inl (c, e, refl, fresh))
            fresh (ground arith) (omega arith) l.2 (λ i. lookup-insert_id i c.id _ r.by_id))
  ]

  open-RegistryInv :
      (d : Decision) (keys : List String) (selected : String)
      → r.next + 1 < 2 ^ 64
      → RegistryInv (open_claim r d keys selected).0
  unfolding open_claim put_attached
  open-RegistryInv d keys selected room =
      attach-IsConsistent v (new_claim r d selected) keys (inr (unused, refl)) refl (omega arith)
        (omega arith) (omega arith) (λ i. lookup-insert_id i (fresh_id r) _ r.by_id)
    where
      unused : lookup id_eq (fresh_id r) r.by_id ≡ none
      unused = elim (Option-cases (lookup id_eq (fresh_id r) r.by_id)) [
        | inl e ↦ e
        | inr (c, e) ↦ let l = v.live (fresh_id r) c e in absurd (omega arith)
      ]

  competing-RegistryInv :
      (d : Decision) (durable : DurableOwners) (keys : List String) (selected : String)
      (cs : List Claim)
      → r.next + 1 < 2 ^ 64
      → RegistryInv (competing r d durable keys selected cs).0
  unfolding competing
  competing-RegistryInv d durable keys selected cs room =
      elim (Bool-cases (contains durable selected)) [
        | inl owner ↦ rw owner v
        | inr other ↦ rw other (go cs)
      ]
    where
      go :
          (cs : List Claim)
          → RegistryInv
              (let x : Registry × Claimed = elim cs [
                | [] ↦ open_claim r d keys selected
                | c ∷ cs ↦ (r, conflict d c.account)
              ] in
                x).0
      go [] = open-RegistryInv d keys selected room
      go (c ∷ cs) = v

  claimed_by-RegistryInv :
      (d : Decision) (durable : DurableOwners) (keys : List String) (selected : String)
      (cs : List Claim) (x : Option Claim)
      → r.next + 1 < 2 ^ 64
      → All (Known r) cs
      → claim_for selected cs ≡ x
      → RegistryInv (claimed_by r d durable keys selected cs x).0
  claimed_by-RegistryInv d durable keys selected cs none room known e =
      competing-RegistryInv d durable keys selected cs room
  claimed_by-RegistryInv d durable keys selected cs (some c) room known e =
      join-RegistryInv d keys cs c (All-mem (Known r) c cs known (claim_for_lem selected cs c e).0)

  decide_claim-RegistryInv :
      (d : Decision) (durable : DurableOwners) (keys : List String) (x : Option Candidate)
      → r.next + 1 < 2 ^ 64
      → RegistryInv (decide_claim r d durable keys (claims_for_keys r keys) x).0
  decide_claim-RegistryInv d durable keys none room = v
  decide_claim-RegistryInv d durable keys (some c) room =
      claimed_by-RegistryInv d durable keys c.id (claims_for_keys r keys) _ room
        (claims_for_keys-Known keys) refl

  select_with-RegistryInv :
      (route : Route) (durable : DurableOwners) (pick : List String → Decision) (keys : List String)
      → r.next + 1 < 2 ^ 64
      → RegistryInv (select_with r route durable pick keys).0
  select_with-RegistryInv route durable pick [] room = v
  select_with-RegistryInv route durable pick (k ∷ ks) room =
      decide_claim-RegistryInv _ durable (k ∷ ks) _ room

  pub select_account-RegistryInv :
      (route : Route) (durable : DurableOwners) (pick : List String → Decision)
      → r.next + 1 < 2 ^ 64
      → RegistryInv (select_account r route durable pick).0
  unfolding select_account
  select_account-RegistryInv route durable pick room =
      select_with-RegistryInv route durable pick (route_claim_keys route) room
