-- ===== src/Routing/Route/Affinity.antt =====
-- The strongest owner of a route keeps it, or blocks it while it has to wait; the model's accounts.
use mathlib.Core.List.{Memᴰ}
use codex_balancer.Prelude.{
  ◌≡◌, refl, ◌∙◌, ◌≢◌, ◌⊎◌, ap, All, All-map, inl, inr, Bool, true, false, not, ◌&&◌, Option, none,
  some, List, [], ◌∷◌, String, str_eq, eq_iff, arith, find_first-none, find_first, Bool-cases,
  Option-cases,
}
use codex_balancer.Account.Window.{Time}
use codex_balancer.Routing.Candidate.{Candidate}
use codex_balancer.Routing.Select.Permute.{UniqueIds}
use codex_balancer.Routing.Route.{
  Owned, blocked_by, retains, unowned, or_else, keeps_route, waits, owner_round, owner_scan,
  owners_scan, owned_route, route, account_allowed, routing_skip, pick_account,
}
use codex_balancer.Routing.Route.Owners.{keeps_route-id}
use codex_balancer.Routing.Route.Safety.{route_ok}

-- A round that does not end the loop does not change what the rest ends with.
abbrev Settles : Owned → Type 0
Settles x = (y : Owned) → or_else x y ≡ x

other_round :
    (now : Time) (skip : String → Bool) (o : String) (c : Candidate)
    → c.id ≢ o
    → owner_round now skip o c ≡ unowned
unfolding owner_round
other_round now skip o c h = elim (Bool-cases (keeps_route c o)) [
  | inl keeps ↦ absurd (h (keeps_route-id c o keeps))
  | inr out ↦ rw out
]

-- The one candidate with an owner's id decides the scan for that owner.
owner_scan_lem :
    (now : Time) (skip : String → Bool) (c : Candidate) (cs : List Candidate)
    → ((d : Candidate) → Memᴰ d cs → d.id ≡ c.id → d ≡ c)
    → Settles (owner_round now skip c.id c)
    → Memᴰ c cs
    → owner_scan now skip c.id cs ≡ owner_round now skip c.id c
unfolding owner_scan
owner_scan_lem now skip c [] unique settles m = elim m [ ]
owner_scan_lem now skip c (d ∷ cs) unique settles (Memᴰ.head e) =
    rw (← e) (settles (owner_scan now skip c.id cs))
owner_scan_lem now skip c (d ∷ cs) unique settles (Memᴰ.tail m) =
    elim (Bool-cases (str_eq d.id c.id)) [
      | inl same ↦
          let e = unique d (Memᴰ.head refl) ((eq_iff d.id c.id).0 same) in
          rw e (settles (owner_scan now skip c.id cs))
      | inr different ↦
          rw (other_round now skip c.id d (λ e. let t = (eq_iff d.id c.id).1 e in cc))
            (owner_scan_lem now skip c cs (λ b n. unique b (Memᴰ.tail n)) settles m)
    ]

module _ (now : Time) (skip : String → Bool) (cs : List Candidate) (c : Candidate)
    (owners : List String) (listed : Memᴰ c cs) (unique : UniqueIds cs)
    (keeps : keeps_route c c.id ≡ true) where
  owners_scan_first :
      Settles (owner_round now skip c.id c)
      → owners_scan now skip cs (c.id ∷ owners) ≡ owner_round now skip c.id c
  unfolding owners_scan
  owners_scan_first settles =
      rw (owner_scan_lem now skip c cs (λ d m e. unique d c m listed e) settles listed)
        (settles (owners_scan now skip cs owners))

  -- In a pool whose ids are distinct, a first owner that is listed, may keep the route, need not
  -- wait and is not skipped is chosen, without its credits: whatever other accounts there are.
  pub route_retains :
      waits c now ≡ false
      → skip c.id ≡ false
      → ((route now cs (c.id ∷ owners) skip).account ≡ some c)
        × ((route now cs (c.id ∷ owners) skip).credit_fallback ≡ false)
  unfolding route owned_route
  route_retains ready free =
      let round : owner_round now skip c.id c ≡ retains c =
        unfold owner_round in rw (keeps, ready, free) refl in
      let scanned = owners_scan_first (λ y. rw round) ∙ round in
      (rw (scanned, owned_route), rw (scanned, owned_route))

  -- In a pool whose ids are distinct, a first owner that is listed, may keep the route and has to wait
  -- blocks it: no account is chosen, and the owner is named as blocked.
  pub route_blocks :
      waits c now ≡ true
      → ((route now cs (c.id ∷ owners) skip).account ≡ none)
        × ((route now cs (c.id ∷ owners) skip).blocked ≡ c.id)
  unfolding route owned_route
  route_blocks wait =
      let round : owner_round now skip c.id c ≡ blocked_by c.id =
        unfold owner_round in rw (keeps, wait) refl in
      let scanned = owners_scan_first (λ y. rw round) ∙ round in
      (rw (scanned, owned_route), rw (scanned, owned_route))

-- An account that is not skipped is allowed, or the list that the skipped ones were taken from has no
-- account of its id.
unskipped :
    (listed : List Candidate) (allowed skip : String → Bool) (c : Candidate)
    → routing_skip listed (some allowed) skip c.id ≡ false
    → (allowed c.id ≡ true) ⊎ All (λ d. str_eq d.id c.id ≡ false) listed
unskipped listed allowed skip c h = elim (Bool-cases (allowed c.id)) [
  | inl may ↦ inl may
  | inr may_not ↦
      (elim (Option-cases (find_first (λ d. str_eq d.id c.id && not (allowed d.id)) listed)) [
        | inl e ↦ inr (
            All-map _ _ listed (λ d p. other d may_not p)
              (find_first-none (λ d. str_eq d.id c.id && not (allowed d.id)) listed e))
        | inr (d, e) ↦ let g : true ≡ false = rw (e, routing_skip) at h in absurd (cc)
      ])
]
  where
    other :
        (d : Candidate)
        → allowed c.id ≡ false
        → (str_eq d.id c.id && not (allowed d.id)) ≡ false
        → str_eq d.id c.id ≡ false
    other d may_not p = elim (Bool-cases (str_eq d.id c.id)) [
      | inr different ↦ different
      | inl same ↦
          let eq : allowed d.id ≡ allowed c.id = ap allowed ((eq_iff d.id c.id).0 same) in
          absurd (ground arith)
    ]

-- The account that is picked is one that the model allows, unless it came to the pool in between: then
-- no account of its id was in the pool when the accounts to skip were worked out.
pub pick_account_allowed :
    (now : Time) (listed cs : List Candidate) (owners : List String)
    (allowed : Option (String → Bool)) (skip : String → Bool) (c : Candidate)
    → (pick_account now listed cs owners allowed skip).account ≡ some c
    → (account_allowed allowed c.id ≡ true) ⊎ All (λ d. str_eq d.id c.id ≡ false) listed
unfolding pick_account
pick_account_allowed now listed cs owners none skip c h = inl refl
pick_account_allowed now listed cs owners (some allowed) skip c h =
    let (_, s, _) = (route_ok now cs (routing_skip listed (some allowed) skip) owners).0 c h in
    unskipped listed allowed skip c s
