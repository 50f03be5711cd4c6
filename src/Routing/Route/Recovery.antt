-- ===== src/Routing/Route/Recovery.antt =====
-- The retry hint: the earliest end of a cooldown after which an account could serve.
use mathlib.Core.List.{Memᴰ}
use codex_balancer.Prelude.{
  ◌≡◌, refl, ◌⊎◌, inl, inr, ◌<◌, ◌≤◌, Bool, true, false, ◌&&◌, ◌||◌, Option, List, [], ◌∷◌, String,
  arith, All, All-map, Bool-cases, if◌then◌else◌,
}
use codex_balancer.Account.Window.{Time, is_zero, before}
use codex_balancer.Routing.Candidate.{Candidate}
use codex_balancer.Routing.Route.{Decision, recovers, recovery_from, cooldown_recovery, chosen}

module _ (d : Decision) (allowed : Option (String → Bool)) where
  -- The hint is the end of a listed cooldown that it may promise.
  abbrev pub Promised : List Candidate → Time → Type 0
  Promised cs t = (c : Candidate) × Memᴰ c cs × (recovers d allowed c ≡ true) × (t ≡ c.cooldown)

  -- No cooldown that it may promise ends before it.
  abbrev Bounded : List Candidate → Time → Type 0
  Bounded cs t = All (λ c. recovers d allowed c ≡ true → (0 < t) × (t ≤ c.cooldown)) cs

  abbrev pub Earliest : List Candidate → Time → Type 0
  Earliest cs t = All (λ c. (recovers d allowed c ≡ false) ⊎ ((0 < t) × (t ≤ c.cooldown))) cs

  Bounded-Earliest : (cs : List Candidate) (t : Time) → Bounded cs t → Earliest cs t
  Bounded-Earliest cs t = All-map _ _ cs (λ c f. elim (Bool-cases (recovers d allowed c)) [
    | inl may ↦ inr (f may)
    | inr not_so ↦ inl not_so
  ])

  recovers-pos : (c : Candidate) → recovers d allowed c ≡ true → 0 < c.cooldown
  unfolding recovers
  recovers-pos c h = ground arith

  -- The value of the accumulator after one candidate.
  abbrev round : Time → Candidate → Time
  round e c = if recovers d allowed c && (is_zero e || before c.cooldown e) then c.cooldown else e

  round-le :
      (e t : Time) (c : Candidate)
      → (0 < round e c → (0 < t) × (t ≤ round e c))
      → (0 < e → (0 < t) × (t ≤ e)) × (recovers d allowed c ≡ true → (0 < t) × (t ≤ c.cooldown))
  round-le e t c h = ground (arith, recovers-pos c)

  recovery_from-le :
      (e : Time) (cs : List Candidate)
      → let t = recovery_from d allowed e cs in (0 < e → (0 < t) × (t ≤ e)) × Bounded cs t
  unfolding recovery_from
  recovery_from-le e [] = ((λ p. (p, omega arith)), tt)
  recovery_from-le e (c ∷ cs) =
      let (below, rest) = recovery_from-le (round e c) cs in
      let (old, new) = round-le e (recovery_from d allowed (round e c) cs) c below in
      (old, (new, rest))

  Promised-cons :
      (e : Time) (c : Candidate) (cs : List Candidate) (t : Time)
      → (t ≡ round e c) ⊎ Promised cs t
      → (t ≡ e) ⊎ Promised (c ∷ cs) t
  Promised-cons e c cs t (inr (x, m, r, h)) = inr (x, Memᴰ.tail m, r, h)
  Promised-cons e c cs t (inl h) =
      elim (Bool-cases (recovers d allowed c && (is_zero e || before c.cooldown e))) [
        | inl took ↦ inr (c, Memᴰ.head refl, ground arith, rw took at h)
        | inr left ↦ inl (rw left at h)
      ]

  recovery_from-Promised :
      (e : Time) (cs : List Candidate)
      → (recovery_from d allowed e cs ≡ e) ⊎ Promised cs (recovery_from d allowed e cs)
  unfolding recovery_from
  recovery_from-Promised e [] = inl refl
  recovery_from-Promised e (c ∷ cs) =
      Promised-cons e c cs (recovery_from d allowed (round e c) cs)
        (recovery_from-Promised (round e c) cs)

  -- The hint is 0 if an account was chosen or no cooldown may be promised, and otherwise the earliest
  -- end of such a cooldown.
  pub cooldown_recovery_lem :
      ((chosen d.account ≡ true) × (cooldown_recovery d allowed ≡ 0))
      ⊎ ((chosen d.account ≡ false)
          × (((cooldown_recovery d allowed ≡ 0)
                × All (λ c. recovers d allowed c ≡ false) d.candidates)
              ⊎ (Promised d.candidates (cooldown_recovery d allowed)
                  × Earliest d.candidates (cooldown_recovery d allowed))))
  unfolding cooldown_recovery
  cooldown_recovery_lem = elim (Bool-cases (chosen d.account)) [
    | inl h ↦ inl (h, rw h)
    | inr h ↦ inr (
      h,
      rw h (elim (recovery_from-Promised 0 d.candidates) [
        | inl e ↦
            inl (
              e,
              All-map _ _ d.candidates (λ c f. ground arith) (recovery_from-le 0 d.candidates).1,
            )
        | inr p ↦ inr (p, Bounded-Earliest d.candidates _ (recovery_from-le 0 d.candidates).1)
      ]),
    )
  ]
