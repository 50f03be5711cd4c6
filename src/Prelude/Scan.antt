-- ===== src/Prelude/Scan.antt =====
-- The loop that keeps the best eligible element so far, and what it ends with.
use mathlib.Core.Path.{◌≡◌, refl}
use mathlib.Core.Logic.{◌⊎◌, inl, inr}
use mathlib.Core.Bool.{Bool, true, false}
use mathlib.Core.Option.{Option, none, some}
use mathlib.Core.List.{List, [], ◌∷◌, Memᴰ}
use native.Mathlib.Omega.{arith}
use codex_balancer.Prelude.Tests.{if◌then◌else◌, Bool-cases}
use codex_balancer.Prelude.Lists.{All}

module _ {ℓ} {A : Type ℓ} where
  -- The first element, and then each that beats the one held so far.
  abbrev pub improve : (A → A → Bool) → Option A → A → Option A
  improve beats none c = some c
  improve beats (some held) c = if beats c held then some c else some held

  unfoldable pub scan : (A → A → Bool) → (A → Bool) → Option A → List A → Option A
  scan beats eligible held [] = held
  scan beats eligible held (c ∷ cs) =
      scan beats eligible (if eligible c then improve beats held c else held) cs

  -- Where the result comes from: it was held, or it is an eligible element of the list.
  abbrev pub From : (A → Bool) → Option A → List A → A → Type ℓ
  From eligible held cs r = (held ≡ some r) ⊎ (Memᴰ r cs × (eligible r ≡ true))

  -- No eligible element of the list beats it.
  abbrev pub Unbeaten : (A → A → Bool) → (A → Bool) → List A → A → Type 0
  Unbeaten beats eligible cs r = All (λ c. eligible c ≡ true → beats c r ≡ false) cs

  -- It is what was held, or it beats that.
  abbrev pub Improves : (A → A → Bool) → Option A → A → Type ℓ
  Improves beats none r = Unit
  Improves beats (some b) r = (r ≡ b) ⊎ (beats r b ≡ true)

module _ {ℓ} {A : Type ℓ} (beats : A → A → Bool) (eligible : A → Bool) where
  -- Once something is held the scan has a result.
  pub scan-some : (b : A) (cs : List A) → (r : A) × (scan beats eligible (some b) cs ≡ some r)
  unfolding scan
  scan-some b [] = (b, refl)
  scan-some b (c ∷ cs) = elim (Bool-cases (eligible c)) [
    | inl e ↦ elim (Bool-cases (beats c b)) [
      | inl won ↦ rw (e, won) (scan-some c cs)
      | inr lost ↦ rw (e, lost) (scan-some b cs)
    ]
    | inr e ↦ rw e (scan-some b cs)
  ]

  -- Without a result nothing of the list is eligible.
  pub scan-none :
      (cs : List A) → scan beats eligible none cs ≡ none → All (λ c. eligible c ≡ false) cs
  unfolding scan
  scan-none [] h = tt
  scan-none (c ∷ cs) h = elim (Bool-cases (eligible c)) [
    | inl e ↦
        let g : scan beats eligible (some c) cs ≡ none = rw e at h in
        let (r, found) = scan-some c cs in absurd (cc)
    | inr e ↦ (e, scan-none cs (rw e at h))
  ]

module _ {ℓ} {A : Type ℓ} (beats : A → A → Bool) (irrefl : (a : A) → beats a a ≡ false)
    (trans : (a b c : A) → beats a b ≡ true → beats b c ≡ true → beats a c ≡ true) where
  not_beaten : (a b : A) → (a ≡ b) ⊎ (beats a b ≡ true) → beats b a ≡ false
  not_beaten a b (inl e) = rw e (irrefl b)
  not_beaten a b (inr h) = ground (arith, trans a b a, irrefl a)

  improve-Improves :
      (held : Option A) (c r : A)
      → Improves beats (improve beats held c) r
      → Improves beats held r × (beats c r ≡ false)
  improve-Improves none c r h = (tt, not_beaten r c h)
  improve-Improves (some b) c r h = elim (Bool-cases (beats c b)) [
    | inl won ↦
        let g : (r ≡ c) ⊎ (beats r c ≡ true) = rw won at h in
        (inr (ground (arith, trans r c b)), not_beaten r c g)
    | inr lost ↦
        let g : (r ≡ b) ⊎ (beats r b ≡ true) = rw lost at h in (g, ground (arith, trans c r b))
  ]

  improve-From :
      (held : Option A) (c r : A) → improve beats held c ≡ some r → (held ≡ some r) ⊎ (r ≡ c)
  improve-From none c r h = ground arith
  improve-From (some b) c r h = ground arith

  module _ (eligible : A → Bool) where
    abbrev pub Outcome : Option A → List A → A → Type ℓ
    Outcome held cs r =
        From eligible held cs r × Improves beats held r × Unbeaten beats eligible cs r

    From-cons :
        (held : Option A) (c r : A) (cs : List A)
        → eligible c ≡ true
        → From eligible (improve beats held c) cs r
        → From eligible held (c ∷ cs) r
    From-cons held c r cs e (inr (m, el)) = inr (Memᴰ.tail m, el)
    From-cons held c r cs e (inl h) = elim (improve-From held c r h) [
      | inl old ↦ inl old
      | inr new ↦ inr (Memᴰ.head new, rw new e)
    ]

    From-skip :
        (held : Option A) (c r : A) (cs : List A)
        → From eligible held cs r
        → From eligible held (c ∷ cs) r
    From-skip held c r cs (inl h) = inl h
    From-skip held c r cs (inr (m, el)) = inr (Memᴰ.tail m, el)

    -- The result is eligible, improves on what was held, and no eligible element beats it.
    pub scan-Outcome :
        (held : Option A) (cs : List A) (r : A)
        → scan beats eligible held cs ≡ some r
        → Outcome held cs r
    unfolding scan
    scan-Outcome none [] r h = cc
    scan-Outcome (some b) [] r h = (inl h, inl (ground arith), tt)
    scan-Outcome held (c ∷ cs) r h = elim (Bool-cases (eligible c)) [
      | inl e ↦
          let (from, better, rest) = scan-Outcome (improve beats held c) cs r (rw (← h) (rw e)) in
          let (kept, below) = improve-Improves held c r better in
          (From-cons held c r cs e from, kept, ((λ _. below), rest))
      | inr e ↦
          let (from, better, rest) = scan-Outcome held cs r (rw (← h) (rw e)) in
          (From-skip held c r cs from, better, ((λ f. cc), rest))
    ]
