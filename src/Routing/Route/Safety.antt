-- ===== src/Routing/Route/Safety.antt =====
-- Which account `route` chooses, and when it chooses none.
use mathlib.Core.List.{Memᴰ}
use codex_balancer.Prelude.{
  ◌≡◌, refl, subst, ◌⊎◌, inl, inr, Bool, true, false, Option, none, some, List, [], ◌∷◌, String,
  arith, All, find_first, find_first_sound, Option-cases,
}
use codex_balancer.Account.Window.{Time}
use codex_balancer.Routing.Candidate.{Candidate, available, credit_available}
use codex_balancer.Routing.Select.{select_fresh_account}
use codex_balancer.Routing.Select.Best.{select_fresh_account-listed, select_fresh_account-none}
use codex_balancer.Routing.Route.{
  Decision, Owned, blocked_by, retains, unowned, keeps_route, waits, owners_scan, credit_owner,
  initial_decision, serves, pays, owner_pays, credit_route, fresh_route, owned_route, route, chosen,
}
use codex_balancer.Routing.Route.Owners.{OwnedOk, owners_scan-OwnedOk}

module _ (now : Time) (cs : List Candidate) (skip : String → Bool) where
  -- No candidate that is not skipped can serve from included quota; from credits.
  abbrev pub NoQuota : Type 0
  NoQuota = All (λ c. serves now skip c ≡ false) cs

  abbrev pub NoCredits : Type 0
  NoCredits = All (λ c. pays now skip c ≡ false) cs

  -- The chosen candidate, with the quota that pays for it.
  abbrev pub ChoiceOk : Bool → Candidate → Type 0
  ChoiceOk fallback c =
      Memᴰ c cs
      × (skip c.id ≡ false)
      × (((fallback ≡ false) × (available c now ≡ true))
          ⊎ ((fallback ≡ true) × (credit_available c now ≡ true) × NoQuota))

  abbrev pub DecisionOk : List String → Decision → Type 0
  DecisionOk owners d =
      ((c : Candidate) → d.account ≡ some c → ChoiceOk d.credit_fallback c)
      × (d.account ≡ none
          → ((d.blocked ≡ "") × NoQuota × NoCredits)
            ⊎ (Memᴰ d.blocked owners
                × ((c : Candidate) × Memᴰ c cs
                    × (keeps_route c d.blocked ≡ true)
                    × (waits c now ≡ true))))

  credit_owner_sound :
      (owners : List String) (c : Candidate)
      → credit_owner now skip cs owners ≡ some c
      → Memᴰ c cs × (skip c.id ≡ false) × (credit_available c now ≡ true)
  unfolding credit_owner
  credit_owner_sound [] c h = cc
  credit_owner_sound (o ∷ owners) c h =
      elim (Option-cases (find_first (owner_pays now skip o) cs)) [
        | inl e ↦ credit_owner_sound owners c (rw (e, credit_owner) at h)
        | inr (d, e) ↦
            let same : some d ≡ some c = rw (e, credit_owner) at h in
            let found : find_first (owner_pays now skip o) cs ≡ some c = cc in
            let (m, p) = find_first_sound (owner_pays now skip o) cs c found in
            (m, ground arith, ground arith)
      ]

  abbrev d₀ : List String → Decision
  d₀ owners = initial_decision now cs owners

  credit_route_ok :
      (owners : List String) (x : Option Candidate)
      → NoQuota
      → credit_owner now skip cs owners ≡ x
      → DecisionOk owners (credit_route (d₀ owners) skip x)
  unfolding credit_route
  credit_route_ok owners (some c) quota e = (
    λ d h.
        let found : credit_owner now skip cs owners ≡ some d = cc in
        let (m, s, p) = credit_owner_sound owners d found in (m, s, inr (refl, p, quota)),
    λ h. absurd (cc),
  )
  credit_route_ok owners none quota e = (
    λ c h.
        let (m, p) = select_fresh_account-listed now (pays now skip) cs c h in
        let picked : chosen (select_fresh_account cs now (pays now skip)) ≡ true = rw h in
        (m, ground arith, inr (picked, ground arith, quota)),
    λ h. inl (refl, quota, select_fresh_account-none now (pays now skip) cs h),
  )

  fresh_route_ok :
      (owners : List String) (x : Option Candidate)
      → select_fresh_account cs now (serves now skip) ≡ x
      → DecisionOk owners (fresh_route (d₀ owners) skip owners x)
  unfolding fresh_route
  fresh_route_ok owners (some c) e = (
    λ d h.
        let found : select_fresh_account cs now (serves now skip) ≡ some d = cc in
        let (m, p) = select_fresh_account-listed now (serves now skip) cs d found in
        (m, ground arith, inl (refl, ground arith)),
    λ h. absurd (cc),
  )
  fresh_route_ok owners none e =
      credit_route_ok owners (credit_owner now skip cs owners)
        (select_fresh_account-none now (serves now skip) cs e) refl

  owned_route_ok :
      (owners : List String) (x : Owned)
      → OwnedOk now skip cs owners x
      → DecisionOk owners (owned_route (d₀ owners) skip owners x)
  unfolding owned_route
  owned_route_ok owners (blocked_by o) (m, p) = (λ c h. absurd (cc), λ h. inr (m, p))
  owned_route_ok owners (retains d) (m, n, s, a) = (
    λ c h. let e : d ≡ c = ground arith in subst (ChoiceOk false) e (m, s, inl (refl, a)),
    λ h. absurd (cc),
  )
  owned_route_ok owners unowned p =
      fresh_route_ok owners (select_fresh_account cs now (serves now skip)) refl

  pub route_ok : (owners : List String) → DecisionOk owners (route now cs owners skip)
  unfolding route
  route_ok owners =
      owned_route_ok owners (owners_scan now skip cs owners)
        (owners_scan-OwnedOk now skip cs owners)

  -- Routing chooses a listed candidate that is not skipped: one that is available, or, as a credit
  -- fallback, one that may spend credits while no candidate that is not skipped is available.
  pub route_sound :
      (owners : List String) (c : Candidate)
      → (route now cs owners skip).account ≡ some c
      → ChoiceOk (route now cs owners skip).credit_fallback c
  route_sound owners = (route_ok owners).0

  -- Routing chooses none only if nothing that is not skipped can serve from quota or from credits, or
  -- if it names as blocked an owner whose candidate may keep the route and has to wait.
  pub route-none :
      (owners : List String)
      → let d = route now cs owners skip in
        d.account ≡ none
        → ((d.blocked ≡ "") × NoQuota × NoCredits)
          ⊎ (Memᴰ d.blocked owners
              × ((c : Candidate) × Memᴰ c cs
                  × (keeps_route c d.blocked ≡ true)
                  × (waits c now ≡ true)))
  route-none owners = (route_ok owners).1
