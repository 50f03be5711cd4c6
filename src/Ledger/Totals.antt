-- ===== src/Ledger/Totals.antt =====
-- The running totals of routed credits, and what their differences are.
use codex_balancer.Prelude.{
  ℕ, ◌-◌, ◌*◌, ◌^◌, ◌==◌, ◌≤◌, ◌<◌, ◌≡◌, refl, if◌then◌else◌, Bool, false, some, List, [], ◌∷◌,
  arith, Bool-cases, inl, inr, ltb, length, ◌||◌,
}
use codex_balancer.Account.Window.{Time, after, before}
use codex_balancer.Ledger.Credits.{
  RoutedCreditPoint, wrap_add, wrap_sub, retotal, insert_point, index_from, drop,
  prune_routed_credits, last_of, add_routed_credits, last_before, since_point, prune_old,
  routed_credits_since,
}

abbrev pub IsSorted : Time → List RoutedCreditPoint → Type 0
IsSorted t [] = Unit
IsSorted t (p ∷ points) = (t ≤ p.at) × IsSorted p.at points

-- The points after a time and two totals are in order, and each continues the totals.
abbrev pub IsTotalled : Time → ℕ → ℕ → List RoutedCreditPoint → Type 0
IsTotalled t c u [] = Unit
IsTotalled t c u (p ∷ points) =
    (t ≤ p.at)
    × (p.total_credits ≡ wrap_add c p.nano_credits)
    × (p.total_unpriced ≡ wrap_add u p.unpriced)
    × IsTotalled p.at p.total_credits p.total_unpriced points

-- The first point of a list may have lost the points before it.
abbrev pub IsLedger : List RoutedCreditPoint → Type 0
IsLedger [] = Unit
IsLedger (p ∷ points) =
    (p.total_credits < 2 ^ 64)
    × (p.total_unpriced < 2 ^ 64)
    × IsTotalled p.at p.total_credits p.total_unpriced points

IsTotalled-IsSorted :
    (t c u : ℕ) (points : List RoutedCreditPoint) → IsTotalled t c u points → IsSorted t points
IsTotalled-IsSorted t c u [] h = tt
IsTotalled-IsSorted t c u (p ∷ points) (le, _, _, rest) =
    (le, IsTotalled-IsSorted p.at p.total_credits p.total_unpriced points rest)

retotal-IsTotalled :
    (t c u : ℕ) (points : List RoutedCreditPoint)
    → IsSorted t points
    → IsTotalled t c u (retotal c u points)
unfolding retotal
retotal-IsTotalled t c u [] h = tt
retotal-IsTotalled t c u (p ∷ points) (le, rest) =
    (le, refl, refl, retotal-IsTotalled p.at _ _ points rest)

insert_point-IsTotalled :
    (t c u : ℕ) (point : RoutedCreditPoint) (points : List RoutedCreditPoint)
    → t ≤ point.at
    → IsTotalled t c u points
    → IsTotalled t c u (insert_point c u point points)
unfolding insert_point
insert_point-IsTotalled t c u point [] le h = retotal-IsTotalled t c u (point ∷ []) (le, tt)
insert_point-IsTotalled t c u point (p ∷ points) le (first, tc, tu, rest) =
    elim (Bool-cases (after p.at point.at)) [
      | inl later ↦ rw later (
          retotal-IsTotalled t c u (point ∷ p ∷ points)
            (le, (ground arith, IsTotalled-IsSorted p.at _ _ points rest)))
      | inr sooner ↦ rw sooner (
        first,
        tc,
        tu,
        insert_point-IsTotalled p.at p.total_credits p.total_unpriced point points (ground arith)
            rest,
      )
    ]

IsTotalled-IsLedger :
    (t c u : ℕ) (points : List RoutedCreditPoint) → IsTotalled t c u points → IsLedger points
IsTotalled-IsLedger t c u [] h = tt
IsTotalled-IsLedger t c u (p ∷ points) (_, tc, tu, rest) = (omega arith, omega arith, rest)

insert_point-IsLedger :
    (point : RoutedCreditPoint) (points : List RoutedCreditPoint)
    → IsLedger points
    → IsLedger (insert_point 0 0 point points)
unfolding insert_point
insert_point-IsLedger point [] h =
    IsTotalled-IsLedger 0 0 0 (retotal 0 0 (point ∷ []))
      (retotal-IsTotalled 0 0 0 (point ∷ []) (omega arith, tt))
insert_point-IsLedger point (p ∷ points) (bc, bu, rest) = elim (Bool-cases (after p.at point.at)) [
  | inl later ↦ rw later (
      IsTotalled-IsLedger 0 0 0 (retotal 0 0 (point ∷ p ∷ points)) (
        retotal-IsTotalled 0 0 0 (point ∷ p ∷ points)
          (omega arith, (ground arith, IsTotalled-IsSorted p.at _ _ points rest))))
  | inr sooner ↦ rw sooner (
    bc,
    bu,
    insert_point-IsTotalled p.at p.total_credits p.total_unpriced point points (ground arith) rest,
  )
]

drop-IsLedger :
    (n : ℕ) (points : List RoutedCreditPoint) → IsLedger points → IsLedger (drop n points)
unfolding drop
drop-IsLedger n [] h = tt
drop-IsLedger n (p ∷ points) (bc, bu, rest) = elim (Bool-cases (n == 0)) [
  | inl stop ↦ rw stop (bc, bu, rest)
  | inr more ↦ rw more (drop-IsLedger (n - 1) points (IsTotalled-IsLedger p.at _ _ points rest))
]

prune-IsLedger :
    (points : List RoutedCreditPoint) (cutoff : Time)
    → IsLedger points
    → IsLedger (prune_routed_credits points cutoff)
unfolding prune_routed_credits
prune-IsLedger points cutoff h =
    let index = index_from cutoff points in
    elim (Bool-cases (ltb index 1024 || ltb (index * 2) (length points))) [
      | inl short ↦ rw short h
      | inr long ↦ rw long (drop-IsLedger (index - 1) points h)
    ]

prune_old-IsLedger :
    (points : List RoutedCreditPoint) → IsLedger points → IsLedger (prune_old points)
prune_old-IsLedger [] h = tt
prune_old-IsLedger (p ∷ points) h = prune-IsLedger (p ∷ points) _ h

-- Adding a point keeps the list in order of time and its totals right, also when old points are
-- pruned.
pub add_routed_credits-IsLedger :
    (points : List RoutedCreditPoint) (at : Time) (nano_credits : ℕ) (known : Bool)
    → IsLedger points
    → IsLedger (add_routed_credits points at nano_credits known)
unfolding add_routed_credits
add_routed_credits-IsLedger points at nano_credits known h =
    prune_old-IsLedger _ (insert_point-IsLedger _ points h)

-- The credits of the points that are not before a time, added up.
unfoldable pub credits_from : Time → List RoutedCreditPoint → ℕ
credits_from start [] = 0
credits_from start (p ∷ points) =
    wrap_add (if before p.at start then 0 else p.nano_credits) (credits_from start points)

late_total :
    (start : Time) (p : RoutedCreditPoint) (points : List RoutedCreditPoint)
    → start ≤ p.at
    → p.total_credits < 2 ^ 64
    → IsTotalled p.at p.total_credits p.total_unpriced points
    → (last_of p points).total_credits ≡ wrap_add p.total_credits (credits_from start points)
unfolding credits_from
late_total start p [] le b h = omega arith
late_total start p (q ∷ points) le b (first, tc, tu, rest) =
    let ih = late_total start q points (omega arith) (omega arith) rest in
    let late : before q.at start ≡ false = ground arith in rw (late, ih, tc) (omega arith)

early_total :
    (start : Time) (b : RoutedCreditPoint) (points : List RoutedCreditPoint)
    → b.total_credits < 2 ^ 64
    → IsTotalled b.at b.total_credits b.total_unpriced points
    → (e : RoutedCreditPoint) × (last_before start (some b) points ≡ some e)
      × (wrap_sub (last_of b points).total_credits e.total_credits ≡ credits_from start points)
unfolding credits_from last_before
early_total start b [] bound h = (b, refl, omega arith)
early_total start b (q ∷ points) bound (first, tc, tu, rest) =
    elim (Bool-cases (before q.at start)) [
      | inl early ↦
          let (e, found, sum) = early_total start q points (omega arith) rest in
          (e, rw early found, rw early (omega (arith, sum)))
      | inr late ↦
          let total = late_total start q points (ground arith) (omega arith) rest in
          (b, rw late refl, rw (late, total, tc) (omega arith))
    ]

-- The difference of two totals that is given as the credits since a time is the sum, wrapped at 64
-- bits, of the credits of the points from that time on; and the time it is given for is not earlier.
pub routed_credits_since_sound :
    (points : List RoutedCreditPoint) (start credits since : Time)
    → IsLedger points
    → routed_credits_since points start ≡ some (credits, since)
    → (credits ≡ credits_from start points) × (start ≤ since)
unfolding routed_credits_since credits_from last_before
routed_credits_since_sound [] start credits since h e = absurd (cc)
routed_credits_since_sound (p ∷ points) start credits since (bc, bu, rest) e =
    elim (Bool-cases (before p.at start)) [
      | inl early ↦
          let (b, found, sum) = early_total start p points bc rest in
          let g = rw (early, found, since_point) at e in rw early (ground arith)
      | inr late ↦
          let total = late_total start p points (ground arith) bc rest in
          let g = rw (late, since_point) at e in rw late (ground arith)
    ]
