-- ===== src/Claims/Handles.antt =====
-- What a selection that returns a handle leaves on the keys of its route.
use codex_balancer.Prelude.{
  ℕ, ◌+◌, ◌≡◌, refl, inl, inr, true, Option, none, some, List, [], ◌∷◌, String, str_eq, arith,
  Bool-cases, Option-cases, All-mem,
}
use codex_balancer.Prelude.Maps.{id_eq, lookup, lookup-insert_id}
use codex_balancer.Routing.Candidate.{Candidate}
use codex_balancer.Routing.Route.{Decision}
use codex_balancer.Claims.Registry.{
  Claim, Registry, Handle, Route, DurableOwners, has, attach_keys, put_attached, claim_at, claim_of,
  claims_for_keys, claim_conflicts, contains, route_claim_keys, handle,
}
use codex_balancer.Claims.Select.{
  Claimed, conflict, claim_for, join_claim, fresh_id, new_claim, open_claim, competing, claimed_by,
  decide_claim, select_with, select_account, select_owners,
}
use codex_balancer.Claims.Keys.{attach_keys_lem}
use codex_balancer.Claims.Invariant.{RegistryInv}
use codex_balancer.Claims.Selection.{Known, claim_for_lem, claims_for_keys-Known}
use codex_balancer.Claims.Pinning.{agreed, claims_for_keys-complete}
use mathlib.Core.List.{Memᴰ}

-- A key that points to a claim of an account.
abbrev pub HeldFor : Registry → String → String → Type 0
HeldFor r k account = (e : Claim) × (claim_at r k ≡ some e) × (e.account ≡ account)

module _ (r : Registry) (v : RegistryInv r) (k : String) where
  put_attached-HeldFor :
      (n : ℕ) (c : Claim) (keys : List String)
      → ((e : Claim) → claim_at r k ≡ some e → e.account ≡ c.account)
      → has k keys ≡ true
      → HeldFor (put_attached (record r { next = n }) c keys) k c.account
  unfolding put_attached claim_at
  put_attached-HeldFor n c keys same listed =
      let (at, _) = attach_keys_lem c.id keys r.by_key c.keys k in
      let d = record c { keys = (attach_keys c.id keys r.by_key c.keys).1 } in
      let law = λ (i : ℕ). lookup-insert_id i c.id d r.by_id in
      elim (Option-cases (lookup str_eq k r.by_key)) [
        | inl free ↦
            let g : lookup str_eq k (attach_keys c.id keys r.by_key c.keys).0 ≡ some c.id =
              rw (free, listed) at at in
            (d, rw (g, claim_of, law c.id) (ground arith), refl)
        | inr (i, taken) ↦
            let g : lookup str_eq k (attach_keys c.id keys r.by_key c.keys).0 ≡ some i =
              rw (taken) at at in
            let (e, here, _, _) = v.keyed k i taken in
            let old = same e (rw (taken, claim_of) here) in
            elim (Bool-cases (id_eq c.id i)) [
              | inl hit ↦ (d, rw (g, claim_of, law i, hit) refl, refl)
              | inr miss ↦ (e, rw (g, claim_of, law i, miss) here, old)
            ]
      ]

  module _ (keys : List String) (listed : has k keys ≡ true) (d : Decision) where
    abbrev cs : List Claim
    cs = claims_for_keys r keys

    join-HeldFor :
        (c : Claim) (h : Handle)
        → Known r c
        → (join_claim r d keys cs c).1.claim ≡ some h
        → HeldFor (join_claim r d keys cs c).0 k h.account
    unfolding join_claim
    join-HeldFor c h known e = elim (Bool-cases (claim_conflicts c cs)) [
      | inl clash ↦ let g : none ≡ some h = rw clash at e in absurd (cc)
      | inr fine ↦
          let g : some (handle c) ≡ some h = rw fine at e in
          let s : c.account ≡ h.account = ground arith in
          let agree : (e : Claim) → claim_at r k ≡ some e → e.account ≡ c.account = λ e p.
            agreed r v c e cs (claims_for_keys-Known r v keys) known fine
              (claims_for_keys-complete r v keys k e listed p) in
          let (b, at, a) =
            put_attached-HeldFor r.next (record c { refs = c.refs + 1 }) keys agree listed in
          (b, rw fine at, rw (a, s))
    ]

    open-HeldFor :
        (selected : String) (h : Handle)
        → cs ≡ []
        → (open_claim r d keys selected).1.claim ≡ some h
        → HeldFor (open_claim r d keys selected).0 k h.account
    unfolding open_claim
    open-HeldFor selected h empty e =
        let s : selected ≡ h.account = ground arith in
        let unclaimed_key : (b : Claim) → claim_at r k ≡ some b → b.account ≡ selected = λ b p.
          let m : Memᴰ b [] = rw empty at (claims_for_keys-complete r v keys k b listed p) in
          elim m [ ] in
        let (b, at, a) =
          put_attached-HeldFor (fresh_id r) (new_claim r d selected) keys unclaimed_key listed in
        (b, at, rw (a, s))

    competing-HeldFor :
        (durable : DurableOwners) (selected : String) (h : Handle) (ds : List Claim)
        → cs ≡ ds
        → (competing r d durable keys selected ds).1.claim ≡ some h
        → HeldFor (competing r d durable keys selected ds).0 k h.account
    unfolding competing
    competing-HeldFor durable selected h ds same e = elim (Bool-cases (contains durable selected)) [
      | inl owner ↦ let g : none ≡ some h = rw owner at e in absurd (cc)
      | inr other ↦ rw other (go ds same (rw other at e))
    ]
      where
        go :
            (ds : List Claim)
            → cs ≡ ds
            → let x : Registry × Claimed = elim ds [
              | [] ↦ open_claim r d keys selected
              | c ∷ cs ↦ (r, conflict d c.account)
            ] in
              x.1.claim ≡ some h → HeldFor x.0 k h.account
        go [] same e = open-HeldFor selected h same e
        go (c ∷ cs) same e = absurd (cc)

    claimed-HeldFor :
        (durable : DurableOwners) (selected : String) (h : Handle) (x : Option Claim)
        → claim_for selected cs ≡ x
        → (claimed_by r d durable keys selected cs x).1.claim ≡ some h
        → HeldFor (claimed_by r d durable keys selected cs x).0 k h.account
    claimed-HeldFor durable selected h none f e = competing-HeldFor durable selected h cs refl e
    claimed-HeldFor durable selected h (some c) f e =
        join-HeldFor c h
          (All-mem (Known r) c cs (claims_for_keys-Known r v keys)
            (claim_for_lem selected cs c f).0)
          e

    decided-HeldFor :
        (durable : DurableOwners) (h : Handle) (x : Option Candidate)
        → (decide_claim r d durable keys cs x).1.claim ≡ some h
        → HeldFor (decide_claim r d durable keys cs x).0 k h.account
    decided-HeldFor durable h none e = absurd (cc)
    decided-HeldFor durable h (some c) e = claimed-HeldFor durable c.id h (claim_for c.id cs) refl e

  selected-HeldFor :
      (route : Route) (durable : DurableOwners) (pick : List String → Decision) (keys : List String)
      (h : Handle)
      → has k keys ≡ true
      → (select_with r route durable pick keys).1.claim ≡ some h
      → HeldFor (select_with r route durable pick keys).0 k h.account
  unfolding has
  selected-HeldFor route durable pick [] h listed e = absurd (cc)
  selected-HeldFor route durable pick (j ∷ keys) h listed e =
      let d = pick (select_owners r route durable) in
      decided-HeldFor (j ∷ keys) listed d durable h d.account e

  -- If a selection in a consistent registry returns a handle, then every key of the route points to a
  -- claim of the handle's account.
  pub select_account-HeldFor :
      (route : Route) (durable : DurableOwners) (pick : List String → Decision) (h : Handle)
      → has k (route_claim_keys route) ≡ true
      → (select_account r route durable pick).1.claim ≡ some h
      → HeldFor (select_account r route durable pick).0 k h.account
  unfolding select_account
  select_account-HeldFor route durable pick h listed e =
      selected-HeldFor route durable pick (route_claim_keys route) h listed e
