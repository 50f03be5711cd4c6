-- ===== src/Routing/Select/Permute.antt =====
-- The choice does not depend on the order of the account list.
use mathlib.Core.List.{Memᴰ}
use text.Mathlib.TextEquality.{path_by_compare}
use codex_balancer.Prelude.{
  Ordering, ◌≡◌, ap, inl, inr, Bool, true, false, none, some, List, arith, All-mem, tied,
  float_compare-eq, Option-cases,
}
use codex_balancer.Account.Window.{Time}
use codex_balancer.Routing.Candidate.{Candidate}
use codex_balancer.Routing.Select.{roomier, idler, in_cohort, select_fresh_account}
use codex_balancer.Routing.Select.Order.{
  compare_priority-IsOrder, room, room-IsOrder, idleness, idleness-IsOrder,
}
use codex_balancer.Routing.Select.Best.{
  IsChoice, select_fresh_account-IsChoice, select_fresh_account-none,
}

-- Every candidate of the one list is in the other.
abbrev pub Within : List Candidate → List Candidate → Type 0
Within cs ds = (c : Candidate) → Memᴰ c cs → Memᴰ c ds

-- An id belongs to one candidate.
abbrev pub UniqueIds : List Candidate → Type 0
UniqueIds cs = (c d : Candidate) → Memᴰ c cs → Memᴰ d cs → c.id ≡ d.id → c ≡ d

-- Two anchors of which neither is roomier have one cohort.
tied_anchors :
    (now : Time) (eligible : Candidate → Bool) (a b c : Candidate)
    → roomier now a b ≡ false
    → roomier now b a ≡ false
    → in_cohort now eligible a c ≡ true
    → in_cohort now eligible b c ≡ true
unfolding roomier in_cohort
tied_anchors now eligible a b c p q h =
    let tie : room now a b ≡ Ordering.eq = tied (room-IsOrder now) a b p q in
    ground
      (arith, float_compare-eq a.pressure b.pressure, (compare_priority-IsOrder now).eq_right c a b)

-- Two candidates of which neither is idler share their id.
tied_ids : (c d : Candidate) → idler c d ≡ false → idler d c ≡ false → c.id ≡ d.id
unfolding idler
tied_ids c d p q =
    let tie : idleness c d ≡ Ordering.eq = tied idleness-IsOrder c d p q in
    path_by_compare c.id d.id (ground arith)

module _ (now : Time) (eligible : Candidate → Bool) (cs ds : List Candidate) where
  not_roomier :
      (a b r s : Candidate)
      → Within ds cs
      → IsChoice now eligible cs a r
      → IsChoice now eligible ds b s
      → roomier now b a ≡ false
  not_roomier a b r s back x y =
      All-mem (λ c. eligible c ≡ true → roomier now c a ≡ false) b cs x.none_roomier
        (back b y.least_listed) y.least_eligible

  not_idler :
      (a b r s : Candidate)
      → Within ds cs
      → IsChoice now eligible cs a r
      → IsChoice now eligible ds b s
      → roomier now a b ≡ false
      → roomier now b a ≡ false
      → idler s r ≡ false
  not_idler a b r s back x y p q =
      All-mem (λ c. in_cohort now eligible a c ≡ true → idler c r ≡ false) s cs x.none_idler
        (back s y.listed) (tied_anchors now eligible b a s q p y.cohort)

module _ (now : Time) (eligible : Candidate → Bool) (cs ds : List Candidate) where
  one_choice :
      (a b r s : Candidate)
      → Within cs ds
      → Within ds cs
      → UniqueIds cs
      → IsChoice now eligible cs a r
      → IsChoice now eligible ds b s
      → r ≡ s
  one_choice a b r s there back unique x y =
      let p = not_roomier now eligible cs ds a b r s back x y in
      let q = not_roomier now eligible ds cs b a s r there y x in
      unique r s x.listed (back s y.listed) (
        tied_ids r s (not_idler now eligible ds cs b a s r there y x p q)
          (not_idler now eligible cs ds a b r s back x y q p))

  chosen_in_both :
      (r : Candidate)
      → Within cs ds
      → select_fresh_account cs now eligible ≡ some r
      → select_fresh_account ds now eligible ≡ none
      → ⊥
  chosen_in_both r there h k =
      let (least, x) = select_fresh_account-IsChoice now eligible cs r h in
      let none_eligible = select_fresh_account-none now eligible ds k in
      let refused =
        All-mem (λ c. eligible c ≡ false) least ds none_eligible (there least x.least_listed) in
      let taken = x.least_eligible in cc

-- Two lists of the same candidates, whose ids are distinct, give the same choice.
pub select_fresh_account_order :
    (now : Time) (eligible : Candidate → Bool) (cs ds : List Candidate)
    → Within cs ds
    → Within ds cs
    → UniqueIds cs
    → select_fresh_account cs now eligible ≡ select_fresh_account ds now eligible
select_fresh_account_order now eligible cs ds there back unique =
    elim (Option-cases (select_fresh_account cs now eligible)) [
      | inl e ↦ elim (Option-cases (select_fresh_account ds now eligible)) [
        | inl f ↦ rw (e, f)
        | inr (s, f) ↦ absurd (chosen_in_both now eligible ds cs s back f e)
      ]
      | inr (r, e) ↦ elim (Option-cases (select_fresh_account ds now eligible)) [
        | inl f ↦ absurd (chosen_in_both now eligible cs ds r there e f)
        | inr (s, f) ↦
            let (a, x) = select_fresh_account-IsChoice now eligible cs r e in
            let (b, y) = select_fresh_account-IsChoice now eligible ds s f in
            rw (e, f) (ap some (one_choice now eligible cs ds a b r s there back unique x y))
      ]
    ]
