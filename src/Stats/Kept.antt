-- ===== src/Stats/Kept.antt =====
-- A history of a thread through the changes of the map of threads of internal/app/stats.go.
use codex_balancer.Prelude.{
  ◌≡◌, refl, Bool, true, Bool-cases, inl, inr, some, List, [], ◌∷◌, keep, String, str_eq, eq_iff,
  arith,
}
use codex_balancer.Prelude.Maps.{lookup, modify, modify_or, lookup-modify_or}
use codex_balancer.Stats.Thread.{ThreadStats}

-- The map has a history of the thread that began when this one did.
abbrev pub Kept : String → ThreadStats → List (String × ThreadStats) → Type 0
Kept thread h threads =
    (k : ThreadStats) × (lookup str_eq thread threads ≡ some k) × (k.created_at ≡ h.created_at)

module _ (thread : String) (h : ThreadStats) where
  pub modify-Kept :
      (key : String) (f : ThreadStats → ThreadStats) (threads : List (String × ThreadStats))
      → ((t : ThreadStats) → (f t).created_at ≡ t.created_at)
      → Kept thread h threads
      → Kept thread h (modify key f threads)
  unfolding lookup modify
  modify-Kept key f [] same (k, found, began) = (k, found, began)
  modify-Kept key f ((j, t) ∷ threads) same (k, found, began) = elim (Bool-cases (str_eq j key)) [
    | inl e ↦ rw e (elim (Bool-cases (str_eq j thread)) [
      | inl here ↦ let is : t ≡ k = ground arith in (f t, rw here refl, rw (same t) (rw is began))
      | inr there ↦ (k, rw there (let g = found in ground arith), began)
    ])
    | inr e ↦ rw e (elim (Bool-cases (str_eq j thread)) [
      | inl here ↦ (k, rw here (let g = found in ground arith), began)
      | inr there ↦
          rw there (modify-Kept key f threads same (k, (let g = found in ground arith), began))
    ])
  ]

  pub keep-Kept :
      (p : String × ThreadStats → Bool) (threads : List (String × ThreadStats))
      → ((t : ThreadStats) → p (thread, t) ≡ true)
      → Kept thread h threads
      → Kept thread h (keep p threads)
  unfolding lookup
  keep-Kept p [] stays (k, found, began) = (k, found, began)
  keep-Kept p ((j, t) ∷ threads) stays (k, found, began) = elim (Bool-cases (str_eq j thread)) [
    | inl here ↦
        let eq : j ≡ thread = (eq_iff j thread).0 here in
        let kept : p (j, t) ≡ true = rw eq (stays t) in
        rw kept (k, rw here (let g = found in ground arith), began)
    | inr there ↦
        let rest = keep-Kept p threads stays (k, (let g = found in ground arith), began) in
        elim (Bool-cases (p (j, t))) [
          | inl stays_in ↦ rw stays_in (rw there rest)
          | inr leaves ↦ rw leaves rest
        ]
  ]

  pub modify_or-Kept :
      (new : ThreadStats) (key : String) (f : ThreadStats → ThreadStats)
      (threads : List (String × ThreadStats))
      → ((t : ThreadStats) → (f t).created_at ≡ t.created_at)
      → Kept thread h threads
      → Kept thread h (modify_or new key f threads)
  modify_or-Kept new key f threads same (k, found, began) =
      rw (lookup-modify_or new thread key f threads) (elim (Bool-cases (str_eq key thread)) [
        | inl e ↦
            let eq : key ≡ thread = (eq_iff key thread).0 e in
            rw e (rw eq (rw found (f k, refl, rw (same k) began)))
        | inr e ↦ rw e (k, found, began)
      ])
