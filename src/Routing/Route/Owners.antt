-- ===== src/Routing/Route/Owners.antt =====
-- What the loop over the owners of a route ends with.
use mathlib.Core.List.{Memᴰ}
use codex_balancer.Prelude.{
  ◌≡◌, refl, inl, inr, Bool, true, false, List, [], ◌∷◌, String, eq_iff, arith, Bool-cases,
}
use codex_balancer.Account.Window.{Time}
use codex_balancer.Routing.Candidate.{Candidate, available}
use codex_balancer.Routing.Route.{
  Owned, blocked_by, retains, unowned, or_else, keeps_route, waits, owner_round, owner_scan,
  owners_scan,
}

-- A retained candidate is listed, has an owner's id, is not skipped and is available; a blocking owner
-- has a listed candidate that may keep the route and has to wait.
abbrev pub OwnedOk : Time → (String → Bool) → List Candidate → List String → Owned → Type 0
OwnedOk now skip cs owners (blocked_by o) =
    Memᴰ o owners × ((c : Candidate) × Memᴰ c cs × (keeps_route c o ≡ true) × (waits c now ≡ true))
OwnedOk now skip cs owners (retains c) =
    Memᴰ c cs × Memᴰ c.id owners × (skip c.id ≡ false) × (available c now ≡ true)
OwnedOk now skip cs owners unowned = Unit

pub keeps_route-id : (c : Candidate) (o : String) → keeps_route c o ≡ true → c.id ≡ o
unfolding keeps_route
keeps_route-id c o h = (eq_iff c.id o).0 (ground arith)

keeps_route-available :
    (c : Candidate) (o : String) (now : Time)
    → keeps_route c o ≡ true
    → waits c now ≡ false
    → available c now ≡ true
unfolding keeps_route waits available
keeps_route-available c o now h k = ground arith

module _ (now : Time) (skip : String → Bool) where
  or_else-OwnedOk :
      (cs : List Candidate) (owners : List String) (x y : Owned)
      → OwnedOk now skip cs owners x
      → OwnedOk now skip cs owners y
      → OwnedOk now skip cs owners (or_else x y)
  or_else-OwnedOk cs owners (blocked_by o) y p q = p
  or_else-OwnedOk cs owners (retains c) y p q = p
  or_else-OwnedOk cs owners unowned y p q = q

  widen_candidates :
      (c : Candidate) (cs : List Candidate) (owners : List String) (x : Owned)
      → OwnedOk now skip cs owners x
      → OwnedOk now skip (c ∷ cs) owners x
  widen_candidates c cs owners (blocked_by o) (m, (d, n, k, w)) = (m, (d, Memᴰ.tail n, k, w))
  widen_candidates c cs owners (retains d) (m, n, s, a) = (Memᴰ.tail m, n, s, a)
  widen_candidates c cs owners unowned p = tt

  widen_owners :
      (o : String) (cs : List Candidate) (owners : List String) (x : Owned)
      → OwnedOk now skip cs owners x
      → OwnedOk now skip cs (o ∷ owners) x
  widen_owners o cs owners (blocked_by q) (m, p) = (Memᴰ.tail m, p)
  widen_owners o cs owners (retains d) (m, n, s, a) = (m, Memᴰ.tail n, s, a)
  widen_owners o cs owners unowned p = tt

  owner_round-OwnedOk :
      (o : String) (c : Candidate) (cs : List Candidate) (owners : List String)
      → OwnedOk now skip (c ∷ cs) (o ∷ owners) (owner_round now skip o c)
  unfolding owner_round
  owner_round-OwnedOk o c cs owners = elim (Bool-cases (keeps_route c o)) [
    | inr out ↦ rw out tt
    | inl keeps ↦ elim (Bool-cases (waits c now)) [
      | inl wait ↦ rw (keeps, wait) ((Memᴰ.head refl, (c, Memᴰ.head refl, keeps, wait)))
      | inr ready ↦ elim (Bool-cases (skip c.id)) [
        | inl skipped ↦ rw (keeps, ready, skipped) tt
        | inr free ↦
            rw (keeps, ready, free)
              (
                Memᴰ.head refl,
                Memᴰ.head (keeps_route-id c o keeps),
                free,
                keeps_route-available c o now keeps ready,
              )
      ]
    ]
  ]

  owner_scan-OwnedOk :
      (o : String) (cs : List Candidate) (owners : List String)
      → OwnedOk now skip cs (o ∷ owners) (owner_scan now skip o cs)
  unfolding owner_scan
  owner_scan-OwnedOk o [] owners = tt
  owner_scan-OwnedOk o (c ∷ cs) owners =
      or_else-OwnedOk (c ∷ cs) (o ∷ owners) (owner_round now skip o c) (owner_scan now skip o cs)
        (owner_round-OwnedOk o c cs owners)
        (widen_candidates c cs (o ∷ owners) (owner_scan now skip o cs)
          (owner_scan-OwnedOk o cs owners))

  -- The loop over all owners.
  pub owners_scan-OwnedOk :
      (cs : List Candidate) (owners : List String)
      → OwnedOk now skip cs owners (owners_scan now skip cs owners)
  unfolding owners_scan
  owners_scan-OwnedOk cs [] = tt
  owners_scan-OwnedOk cs (o ∷ owners) =
      or_else-OwnedOk cs (o ∷ owners) (owner_scan now skip o cs) (owners_scan now skip cs owners)
        (owner_scan-OwnedOk o cs owners)
        (widen_owners o cs owners (owners_scan now skip cs owners) (owners_scan-OwnedOk cs owners))
