-- ===== src/Claims/Pinning.antt =====
-- A selection honours the claims on the keys of its route.
use mathlib.Core.List.{Memᴰ}
use codex_balancer.Prelude.{
  ℕ, ◌==◌, ◌≡◌, refl, subst, ◌⊎◌, inl, inr, Bool, true, false, not, ◌&&◌, Option, none, some, List,
  [], ◌∷◌, ◌++◌, String, str_eq, eq_iff, arith, Bool-cases, All, All-mem, any,
}
use codex_balancer.Prelude.Maps.{id_eq, lookup}
use codex_balancer.Routing.Candidate.{Candidate}
use codex_balancer.Routing.Route.{Decision}
use codex_balancer.Claims.Registry.{
  Claim, Registry, Route, DurableOwners, has, claim_at, add_claim, has_claim, claims_from,
  claims_for_keys, claim_conflicts, contains, route_claim_keys,
}
use codex_balancer.Claims.Select.{
  Claimed, conflict, claim_for, join_claim, open_claim, competing, claimed_by, decide_claim,
  select_with, select_account, select_owners,
}
use codex_balancer.Claims.Invariant.{RegistryInv}
use codex_balancer.Claims.Selection.{
  Known, claim_for_lem, claim_at-Known, claims_for_keys-Known, add_claim-Known,
}

Mem-append_left : {A : Type 0} (a : A) (xs ys : List A) → Memᴰ a xs → Memᴰ a (xs ++ ys)
Mem-append_left a [] ys m = elim m [ ]
Mem-append_left a (x ∷ xs) ys (Memᴰ.head e) = Memᴰ.head e
Mem-append_left a (x ∷ xs) ys (Memᴰ.tail m) = Memᴰ.tail (Mem-append_left a xs ys m)

Mem-append_last : {A : Type 0} (a : A) (xs : List A) → Memᴰ a (xs ++ a ∷ [])
Mem-append_last a [] = Memᴰ.head refl
Mem-append_last a (x ∷ xs) = Memᴰ.tail (Mem-append_last a xs)

has_claim_lem :
    (i : ℕ) (cs : List Claim) → has_claim i cs ≡ true → (d : Claim) × Memᴰ d cs × (d.id ≡ i)
unfolding has_claim
has_claim_lem i [] h = absurd (cc)
has_claim_lem i (c ∷ cs) h = elim (Bool-cases (c.id == i)) [
  | inl hit ↦ (c, Memᴰ.head refl, ground arith)
  | inr miss ↦ let (d, m, e) = has_claim_lem i cs (rw miss at h) in (d, Memᴰ.tail m, e)
]

any-false :
    (p : Claim → Bool) (cs : List Claim) (c : Claim) → any p cs ≡ false → Memᴰ c cs → p c ≡ false
any-false p [] c h m = elim m [ ]
any-false p (d ∷ cs) c h (Memᴰ.head e) = rw e (ground arith)
any-false p (d ∷ cs) c h (Memᴰ.tail m) = any-false p cs c (ground arith) m

module _ (r : Registry) (v : RegistryInv r) where
  -- Two known claims with one id are the same.
  Known-unique : (c d : Claim) → Known r c → Known r d → c.id ≡ d.id → c ≡ d
  Known-unique c d (p, _) (q, _) e =
      let s = subst (λ i. lookup id_eq i r.by_id ≡ some c) e p in ground arith

  add_claim-adds :
      (acc : List Claim) (e : Claim)
      → All (Known r) acc
      → Known r e
      → Memᴰ e (add_claim acc (some e))
  add_claim-adds acc e known k = elim (Bool-cases (has_claim e.id acc)) [
    | inl old ↦
        let (d, m, same) = has_claim_lem e.id acc old in
        let s = Known-unique d e (All-mem (Known r) d acc known m) k same in
        rw old (subst (λ x. Memᴰ x acc) s m)
    | inr new ↦ rw new (Mem-append_last e acc)
  ]

  add_claim-keeps :
      (acc : List Claim) (x : Option Claim) (e : Claim) → Memᴰ e acc → Memᴰ e (add_claim acc x)
  add_claim-keeps acc none e m = m
  add_claim-keeps acc (some c) e m = elim (Bool-cases (has_claim c.id acc)) [
    | inl old ↦ rw old m
    | inr new ↦ rw new (Mem-append_left e acc (c ∷ []) m)
  ]

  claims_from-keeps :
      (acc : List Claim) (keys : List String) (e : Claim)
      → Memᴰ e acc
      → Memᴰ e (claims_from r acc keys)
  unfolding claims_from
  claims_from-keeps acc [] e m = m
  claims_from-keeps acc (k ∷ keys) e m =
      claims_from-keeps (add_claim acc (claim_at r k)) keys e
        (add_claim-keeps acc (claim_at r k) e m)

  -- Every claim on a key of the list is found.
  claims_from-complete :
      (acc : List Claim) (keys : List String) (k : String) (e : Claim)
      → All (Known r) acc
      → has k keys ≡ true
      → claim_at r k ≡ some e
      → Memᴰ e (claims_from r acc keys)
  unfolding claims_from has
  claims_from-complete acc [] k e known listed h = absurd (cc)
  claims_from-complete acc (j ∷ keys) k e known listed h = elim (Bool-cases (str_eq j k)) [
    | inl same ↦
        let g : claim_at r j ≡ some e = rw ((eq_iff j k).0 same) h in
        claims_from-keeps (add_claim acc (claim_at r j)) keys e
          (rw g (add_claim-adds acc e known (claim_at-Known r v j e g)))
    | inr other ↦
        claims_from-complete (add_claim acc (claim_at r j)) keys k e
          (add_claim-Known r v acc (claim_at r j) (claim_at-Known r v j) known) (rw other at listed)
          h
  ]

  pub claims_for_keys-complete :
      (keys : List String) (k : String) (e : Claim)
      → has k keys ≡ true
      → claim_at r k ≡ some e
      → Memᴰ e (claims_for_keys r keys)
  unfolding claims_for_keys
  claims_for_keys-complete keys k e listed h = claims_from-complete [] keys k e tt listed h

  -- Without a conflict the claims that were found are for one account.
  pub agreed :
      (c e : Claim) (cs : List Claim)
      → All (Known r) cs
      → Known r c
      → claim_conflicts c cs ≡ false
      → Memᴰ e cs
      → e.account ≡ c.account
  unfolding claim_conflicts
  agreed c e cs known k none_clash m =
      let p =
        any-false (λ c'. not (c'.id == c.id) && not (str_eq c'.account c.account)) cs e none_clash
          m in
      elim (Bool-cases (e.id == c.id)) [
        | inl same ↦
            let s = Known-unique e c (All-mem (Known r) e cs known m) k (ground arith) in rw s
        | inr other ↦ (eq_iff e.account c.account).0 (ground arith)
      ]

  module _ (durable : DurableOwners) (d : Decision) (keys : List String) (cs : List Claim)
      (known : All (Known r) cs) (e : Claim) (member : Memᴰ e cs) (sel : Candidate)
      (picked : d.account ≡ some sel) where
    joined_honours :
        (c : Claim) (a : Candidate)
        → Known r c
        → c.account ≡ sel.id
        → (join_claim r d keys cs c).1.decision.account ≡ some a
        → e.account ≡ a.id
    unfolding join_claim
    joined_honours c a k same h = elim (Bool-cases (claim_conflicts c cs)) [
      | inl clash ↦ let g : none ≡ some a = rw clash at h in absurd (cc)
      | inr fine ↦
          let g : d.account ≡ some a = rw fine at h in
          let agree = agreed c e cs known k fine member in
          let s : sel ≡ a = ground arith in rw (agree, same, s)
    ]

    competing_honours :
        (a : Candidate)
        → (competing r d durable keys sel.id cs).1.decision.account ≡ some a
        → contains durable a.id ≡ true
    unfolding competing
    competing_honours a h = elim (Bool-cases (contains durable sel.id)) [
      | inl owner ↦
          let g : d.account ≡ some a = rw owner at h in
          let s : sel ≡ a = ground arith in rw (← s) owner
      | inr other ↦ go cs member (rw other at h)
    ]
      where
        go :
            (cs : List Claim)
            → Memᴰ e cs
            → (let x : Registry × Claimed = elim cs [
              | [] ↦ open_claim r d keys sel.id
              | c ∷ cs ↦ (r, conflict d c.account)
            ] in
                x).1.decision.account
              ≡ some a
            → contains durable a.id ≡ true
        go [] m h = elim m [ ]
        go (c ∷ cs) m h = absurd (cc)

    claimed_honours :
        (x : Option Claim) (a : Candidate)
        → claim_for sel.id cs ≡ x
        → (claimed_by r d durable keys sel.id cs x).1.decision.account ≡ some a
        → (e.account ≡ a.id) ⊎ (contains durable a.id ≡ true)
    claimed_honours none a f h = inr (competing_honours a h)
    claimed_honours (some c) a f h =
        let (m, same) = claim_for_lem sel.id cs c f in
        inl (joined_honours c a (All-mem (Known r) c cs known m) same h)

  decided_honours :
      (durable : DurableOwners) (d : Decision) (keys : List String) (k : String) (e : Claim)
      (a : Candidate) (x : Option Candidate)
      → has k keys ≡ true
      → claim_at r k ≡ some e
      → d.account ≡ x
      → (decide_claim r d durable keys (claims_for_keys r keys) x).1.decision.account ≡ some a
      → (e.account ≡ a.id) ⊎ (contains durable a.id ≡ true)
  decided_honours durable d keys k e a none listed at p h =
      let g : none ≡ some a = rw p at h in absurd (cc)
  decided_honours durable d keys k e a (some sel) listed at p h =
      claimed_honours durable d keys (claims_for_keys r keys) (claims_for_keys-Known r v keys) e
        (claims_for_keys-complete keys k e listed at) sel p
        (claim_for sel.id (claims_for_keys r keys)) a refl h

  selected_honours :
      (route : Route) (durable : DurableOwners) (pick : List String → Decision) (keys : List String)
      (k : String) (e : Claim) (a : Candidate)
      → has k keys ≡ true
      → claim_at r k ≡ some e
      → (select_with r route durable pick keys).1.decision.account ≡ some a
      → (e.account ≡ a.id) ⊎ (contains durable a.id ≡ true)
  unfolding has
  selected_honours route durable pick [] k e a listed at h = absurd (cc)
  selected_honours route durable pick (j ∷ keys) k e a listed at h =
      decided_honours durable (pick (select_owners r route durable)) (j ∷ keys) k e a _ listed at
        refl h

  -- In a consistent registry, a selection that chooses an account chooses that of every claim on a key
  -- of the route, or a durable owner of the route.
  pub select_account_honours :
      (route : Route) (durable : DurableOwners) (pick : List String → Decision) (k : String)
      (e : Claim) (a : Candidate)
      → has k (route_claim_keys route) ≡ true
      → claim_at r k ≡ some e
      → (select_account r route durable pick).1.decision.account ≡ some a
      → (e.account ≡ a.id) ⊎ (contains durable a.id ≡ true)
  unfolding select_account
  select_account_honours route durable pick k e a listed at h =
      selected_honours route durable pick (route_claim_keys route) k e a listed at h
