-- ===== src/Claims/Preservation.antt =====
-- Every method of the registry keeps it consistent.
use codex_balancer.Prelude.{
  ℕ, ◌==◌, ◌-◌, ◌≤◌, ◌≡◌, refl, inl, inr, if◌then◌else◌, Bool, true, false, ◌||◌, Option, none,
  some, List, [], ◌∷◌, String, str_eq, arith, Bool-cases, Option-cases,
}
use codex_balancer.Prelude.Maps.{id_eq, lookup, erase, insert, lookup-erase_id, lookup-insert_id}
use codex_balancer.Routing.Route.{RoutingReason}
use codex_balancer.Claims.Registry.{Claim, Registry, Handle, remove_locked, empty_registry}
use codex_balancer.Claims.Lifecycle.{
  same_account, release_claim, remove_claim, commit_claim, preserve_claim, transfer_claim,
  accept_claim, invalidate_claim, held_claim, put_claim, release, remove, clear_barriers, commit,
  preserve, transfer, invalidate_claims, invalidate_account, accept_switch,
}
use codex_balancer.Claims.Invariant.{
  RegistryInv, drop-IsConsistent, end-IsConsistent, update-IsConsistent, Replaced, Ended,
}

pub empty-RegistryInv : RegistryInv empty_registry
unfolding lookup
empty-RegistryInv = record {
  keyed = λ k i h. absurd (cc);
  owned = λ k i c h f l. absurd (cc);
  live = λ i c h. absurd (cc);
}

-- The claim that a commit leaves.
abbrev commits : Claim → Claim
commits c = record c { committed = true; refs = c.refs - 1 }

committed_at :
    (by_id : List (ℕ × Claim)) (c : Claim) (last : Bool)
    → Replaced c.id
        (if last then none else some (commits c))
        by_id
        (if last then erase id_eq c.id by_id else insert id_eq c.id (commits c) by_id)
committed_at by_id c true i = lookup-erase_id i c.id by_id
committed_at by_id c false i = lookup-insert_id i c.id (commits c) by_id

committed-Ended :
    (c : Claim) → 1 ≤ c.refs → Ended c (if c.refs - 1 == 0 then none else some (commits c))
committed-Ended c refs = elim (Bool-cases (c.refs - 1 == 0)) [
  | inl last ↦ rw last tt
  | inr more ↦ rw more (refl, refl, ground arith)
]

module _ (r : Registry) (v : RegistryInv r) where
  -- What `held_claim` finds stands under its own id.
  pub held_lem :
      (i : ℕ) (account : String) (c : Claim)
      → held_claim r i account ≡ some c
      → (lookup id_eq c.id r.by_id ≡ some c) × (1 ≤ c.refs)
  unfolding held_claim
  held_lem i account c h = elim (Option-cases (lookup id_eq i r.by_id)) [
    | inl e ↦ let g : none ≡ some c = rw (e, same_account) at h in absurd (cc)
    | inr (d, e) ↦
        let g : (if str_eq d.account account then some d else none) ≡ some c =
          rw (e, same_account) at h in
        let l = v.live i d e in ground arith
  ]

  removed :
      (c d : Claim)
      → lookup id_eq c.id r.by_id ≡ some c
      → d.id ≡ c.id
      → d.keys ≡ c.keys
      → RegistryInv (remove_locked r d)
  unfolding remove_locked
  removed c d e same keys =
      rw (same, keys) (drop-IsConsistent v c none e tt (λ i. lookup-erase_id i c.id r.by_id))

  updated :
      (c d : Claim)
      → lookup id_eq c.id r.by_id ≡ some c
      → d.id ≡ c.id
      → d.keys ≡ c.keys
      → d.committed ≡ c.committed
      → 1 ≤ d.refs
      → RegistryInv (put_claim r d)
  updated c d e same keys committed refs =
      update-IsConsistent v c d e same keys committed refs
        (λ i. ground (arith, lookup-insert_id i d.id d r.by_id))

  release_held :
      (i : ℕ) (account : String) (x : Option Claim)
      → held_claim r i account ≡ x
      → RegistryInv (release_claim r x)
  release_held i account none h = v
  release_held i account (some c) h =
      let (e, refs) = held_lem i account c h in
      let d = record c { refs = c.refs - 1 } in
      elim (Bool-cases (d.refs == 0)) [
        | inl last ↦ rw last (removed c d e refl refl)
        | inr more ↦ rw more (updated c d e refl refl refl (ground arith))
      ]

  pub release-RegistryInv : (i : ℕ) (account : String) → RegistryInv (release r i account)
  unfolding release
  release-RegistryInv i account = release_held i account (held_claim r i account) refl

  remove_found :
      (i : ℕ) (x : Option Claim) → lookup id_eq i r.by_id ≡ x → RegistryInv (remove_claim r x)
  remove_found i none h = v
  remove_found i (some c) h = let l = v.live i c h in removed c c (ground arith) refl refl

  pub remove-RegistryInv : (i : ℕ) → RegistryInv (remove r i)
  unfolding remove
  remove-RegistryInv i = remove_found i (lookup id_eq i r.by_id) refl

  pub clear_barriers-RegistryInv : (keys : List String) → RegistryInv (clear_barriers r keys)
  unfolding clear_barriers
  clear_barriers-RegistryInv keys = v

  commit_held :
      (i : ℕ) (account : String) (keys : List String) (x : Option Claim)
      → held_claim r i account ≡ x
      → RegistryInv (commit_claim r keys x)
  commit_held i account keys none h = v
  commit_held i account keys (some c) h =
      let (e, refs) = held_lem i account c h in
      elim (Bool-cases c.committed) [
        | inl done ↦ rw done (
            end-IsConsistent v c _ e done (committed-Ended c refs)
              (committed_at r.by_id c (c.refs - 1 == 0)))
        | inr fresh ↦ rw fresh (
            drop-IsConsistent v c _ e (committed-Ended c refs)
              (committed_at r.by_id c (c.refs - 1 == 0)))
      ]

  pub commit-RegistryInv :
      (i : ℕ) (account : String) (keys : List String) → RegistryInv (commit r i account keys)
  unfolding commit
  commit-RegistryInv i account keys = commit_held i account keys (held_claim r i account) refl

  preserve_held :
      (i : ℕ) (account : String) (x : Option Claim)
      → held_claim r i account ≡ x
      → RegistryInv (preserve_claim r account x).0
  unfolding remove_locked
  preserve_held i account none h = v
  preserve_held i account (some c) h = removed c c (held_lem i account c h).0 refl refl

  pub preserve-RegistryInv : (i : ℕ) (account : String) → RegistryInv (preserve r i account).0
  unfolding preserve
  preserve-RegistryInv i account = preserve_held i account (held_claim r i account) refl

  transfer_held :
      (i : ℕ) (from to prior : String) (reason : RoutingReason) (x : Option Claim)
      → held_claim r i from ≡ x
      → RegistryInv (transfer_claim r to prior reason x).0
  transfer_held i from to prior reason none h = v
  transfer_held i from to prior reason (some c) h = elim (Bool-cases (c.accepted || c.committed)) [
    | inl settled ↦ rw settled v
    | inr open' ↦ rw open' (
        updated c (record c { account = to; prior_owner = prior; reason = reason; refs = 1 })
          (held_lem i from c h).0 refl refl refl (omega arith))
  ]

  pub transfer-RegistryInv :
      (i : ℕ) (from to prior : String) (reason : RoutingReason)
      → RegistryInv (transfer r i from to prior reason).0
  unfolding transfer
  transfer-RegistryInv i from to prior reason =
      transfer_held i from to prior reason (held_claim r i from) refl

  accept_held :
      (h : Handle) (x : Option Claim)
      → held_claim r h.id h.account ≡ x
      → RegistryInv (accept_claim r x).0
  accept_held h none e = v
  accept_held h (some c) e = elim (Bool-cases c.accepted) [
    | inl before ↦ rw before v
    | inr now ↦
        let (found, refs) = held_lem h.id h.account c e in
        rw now (updated c (record c { accepted = true }) found refl refl refl refs)
  ]

  pub accept_switch-RegistryInv : (h : Handle) → RegistryInv (accept_switch r h).0
  unfolding accept_switch
  accept_switch-RegistryInv h = accept_held h (held_claim r h.id h.account) refl

  pub invalidate_found :
      (account : String) (n i : ℕ) (keys : List String) (x : Option Claim)
      → lookup id_eq i r.by_id ≡ x
      → RegistryInv (invalidate_claim account (r, n, keys) x).0
  unfolding remove_locked
  invalidate_found account n i keys none h = v
  invalidate_found account n i keys (some c) h = elim (Bool-cases (str_eq c.account account)) [
    | inl hit ↦ let l = v.live i c h in rw hit (removed c c (ground arith) refl refl)
    | inr other ↦ rw other v
  ]

invalidate_claims-RegistryInv :
    (account : String) (r : Registry) (n : ℕ) (keys : List String) (cs : List (ℕ × Claim))
    → RegistryInv r
    → RegistryInv (invalidate_claims account (r, n, keys) cs).0
unfolding invalidate_claims
invalidate_claims-RegistryInv account r n keys [] v = v
invalidate_claims-RegistryInv account r n keys ((i, c) ∷ cs) v =
    let s = invalidate_claim account (r, n, keys) (lookup id_eq i r.by_id) in
    invalidate_claims-RegistryInv account s.0 s.1 s.2 cs
      (invalidate_found r v account n i keys (lookup id_eq i r.by_id) refl)

pub invalidate_account-RegistryInv :
    (r : Registry)
    → RegistryInv r
    → (account : String) → RegistryInv (invalidate_account r account).0
unfolding invalidate_account
invalidate_account-RegistryInv r v account = invalidate_claims-RegistryInv account r 0 [] r.by_id v
