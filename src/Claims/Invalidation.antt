-- ===== src/Claims/Invalidation.antt =====
-- What is left of an account's claims once the account was invalidated.
use mathlib.Core.List.{Memᴰ}
use codex_balancer.Prelude.{
  ℕ, ◌≡◌, ◌≢◌, refl, inl, inr, Option, none, some, List, [], ◌∷◌, String, str_eq, eq_iff, arith,
  Bool-cases,
}
use codex_balancer.Prelude.Maps.{id_eq, lookup, erase, lookup-erase_id}
use codex_balancer.Claims.Registry.{Claim, Registry, remove_locked}
use codex_balancer.Claims.Lifecycle.{invalidate_claim, invalidate_claims, invalidate_account}
use codex_balancer.Claims.Invariant.{RegistryInv}
use codex_balancer.Claims.Preservation.{invalidate_found, invalidate_account-RegistryInv}

-- The ids under which claims stand.
abbrev claim_ids : List (ℕ × Claim) → List ℕ
claim_ids [] = []
claim_ids ((i, c) ∷ cs) = i ∷ claim_ids cs

lookup-listed :
    (i : ℕ) (c : Claim) (cs : List (ℕ × Claim)) → lookup id_eq i cs ≡ some c → Memᴰ i (claim_ids cs)
unfolding lookup
lookup-listed i c [] h = absurd (cc)
lookup-listed i c ((j, d) ∷ cs) h = elim (Bool-cases (id_eq j i)) [
  | inl hit ↦ Memᴰ.head (ground arith)
  | inr miss ↦ Memᴰ.tail (lookup-listed i c cs (rw miss at h))
]

-- The claim under an id is removed if it is one of the account; no other changes.
invalidate_claim_lem :
    (account : String) (r : Registry) (n : ℕ) (keys : List String) (i : ℕ) (x : Option Claim)
    → RegistryInv r
    → lookup id_eq i r.by_id ≡ x
    → (j : ℕ) (c : Claim)
    → lookup id_eq j (invalidate_claim account (r, n, keys) x).0.by_id ≡ some c
    → (lookup id_eq j r.by_id ≡ some c) × (j ≡ i → c.account ≢ account)
unfolding remove_locked
invalidate_claim_lem account r n keys i none v h j c f = (f, λ e. absurd (ground arith))
invalidate_claim_lem account r n keys i (some d) v h j c f =
    let live = v.live i d h in
    elim (Bool-cases (str_eq d.account account)) [
      | inl hit ↦
          let g : lookup id_eq j (erase id_eq d.id r.by_id) ≡ some c = rw hit at f in
          let law = lookup-erase_id j d.id r.by_id in (ground arith, λ e. absurd (ground arith))
      | inr other ↦
          let g : lookup id_eq j r.by_id ≡ some c = rw other at f in
          (g, λ e p. ground (arith, eq_iff d.account account))
    ]

invalidate_claims_lem :
    (account : String) (r : Registry) (n : ℕ) (keys : List String) (cs : List (ℕ × Claim))
    → RegistryInv r
    → (j : ℕ) (c : Claim)
    → lookup id_eq j (invalidate_claims account (r, n, keys) cs).0.by_id ≡ some c
    → (lookup id_eq j r.by_id ≡ some c) × (Memᴰ j (claim_ids cs) → c.account ≢ account)
unfolding invalidate_claims
invalidate_claims_lem account r n keys [] v j c f = (f, λ m. elim m [ ])
invalidate_claims_lem account r n keys ((i, d) ∷ cs) v j c f =
    let s = invalidate_claim account (r, n, keys) (lookup id_eq i r.by_id) in
    let w = invalidate_found r v account n i keys (lookup id_eq i r.by_id) refl in
    let (old, rest) = invalidate_claims_lem account s.0 s.1 s.2 cs w j c f in
    let (older, here) =
      invalidate_claim_lem account r n keys i (lookup id_eq i r.by_id) v refl j c old in
    (older, λ m. at_id m here rest)
  where
    at_id :
        Memᴰ j (i ∷ claim_ids cs)
        → (j ≡ i → c.account ≢ account)
        → (Memᴰ j (claim_ids cs) → c.account ≢ account)
        → c.account ≢ account
    at_id (Memᴰ.head e) here rest = here e
    at_id (Memᴰ.tail m) here rest = rest m

-- After an account was invalidated in a consistent registry, every claim left stood there before
-- and is one of another account.
pub invalidate_account_removes :
    (r : Registry) (account : String)
    → RegistryInv r
    → (i : ℕ) (c : Claim) → lookup id_eq i (invalidate_account r account).0.by_id ≡ some c
    → (lookup id_eq i r.by_id ≡ some c) × (c.account ≢ account)
unfolding invalidate_account
invalidate_account_removes r account v i c f =
    let (old, other) = invalidate_claims_lem account r 0 [] r.by_id v i c f in
    (old, other (lookup-listed i c r.by_id old))

-- After an account was invalidated in a consistent registry, no key dangles and none points to a claim
-- of the account: each key that is left points to a claim that stands in the registry, and that is one
-- of another account.
pub invalidate_account_detaches :
    (r : Registry) (account : String)
    → RegistryInv r
    → (k : String) (i : ℕ)
    → let s = (invalidate_account r account).0 in
      lookup str_eq k s.by_key ≡ some i
      → (c : Claim) × (lookup id_eq i s.by_id ≡ some c) × (c.account ≢ account)
invalidate_account_detaches r account v k i e =
    let (c, stands, listed, fresh) = (invalidate_account-RegistryInv r v account).keyed k i e in
    (c, stands, (invalidate_account_removes r account v i c stands).1)
