-- ===== src/Routing/Select/Best.antt =====
-- What `selectFreshAccount` chooses.
use mathlib.Core.List.{Memᴰ}
use codex_balancer.Prelude.{
  Ordering, ◌≡◌, ◌≢◌, refl, ◌⊎◌, inl, inr, Bool, true, false, none, some, List, nan, float_lt,
  float_suc, arith, All, All-mem, is_lt_irrefl, is_lt_trans, float_suc-not_lt, float_suc_bound,
  subst, scan, scan-some, scan-none, scan-Outcome, From, Unbeaten, Option-cases,
}
use codex_balancer.Account.Window.{Time}
use codex_balancer.Routing.Candidate.{Candidate}
use codex_balancer.Routing.Select.{
  compare_priority, roomier, idler, in_cohort, best_of_cohort, select_fresh_account,
}
use codex_balancer.Routing.Select.Order.{compare_priority-IsOrder, room-IsOrder, idleness-IsOrder}

roomier_irrefl : (now : Time) (c : Candidate) → roomier now c c ≡ false
unfolding roomier
roomier_irrefl now = is_lt_irrefl (room-IsOrder now)

roomier_trans :
    (now : Time) (a b c : Candidate)
    → roomier now a b ≡ true
    → roomier now b c ≡ true
    → roomier now a c ≡ true
unfolding roomier
roomier_trans now = is_lt_trans (room-IsOrder now)

idler_irrefl : (c : Candidate) → idler c c ≡ false
unfolding idler
idler_irrefl = is_lt_irrefl idleness-IsOrder

idler_trans : (a b c : Candidate) → idler a b ≡ true → idler b c ≡ true → idler a c ≡ true
unfolding idler
idler_trans = is_lt_trans idleness-IsOrder

-- The choice with the candidate whose priority and pressure anchor it.
pub record IsChoice (now : Time) (eligible : Candidate → Bool) (cs : List Candidate)
    (least r : Candidate) : Type 0 where
  pub least_listed : Memᴰ least cs
  pub least_eligible : eligible least ≡ true
  pub none_roomier : Unbeaten (roomier now) eligible cs least
  pub listed : Memᴰ r cs
  pub cohort : in_cohort now eligible least r ≡ true
  pub none_idler : Unbeaten idler (in_cohort now eligible least) cs r

-- Every candidate is in the cohort that it anchors.
in_cohort_self :
    (now : Time) (eligible : Candidate → Bool) (c : Candidate)
    → eligible c ≡ true
    → in_cohort now eligible c c ≡ true
unfolding in_cohort
in_cohort_self now eligible c e =
    rw (e, (compare_priority-IsOrder now).reflexive c, float_suc-not_lt c.pressure)

in_cohort-eligible :
    (now : Time) (eligible : Candidate → Bool) (least c : Candidate)
    → in_cohort now eligible least c ≡ true
    → (eligible c ≡ true)
      × (compare_priority now c least ≡ Ordering.eq)
      × (float_lt (float_suc least.pressure) c.pressure ≡ false)
unfolding in_cohort
in_cohort-eligible now eligible least c h = ground arith

-- What holds of a member of the anchor's cohort against a candidate that does not beat the anchor.
anchored :
    (now : Time) (c r least : Candidate)
    → compare_priority now r least ≡ Ordering.eq
    → float_lt (float_suc least.pressure) r.pressure ≡ false
    → roomier now c least ≡ false
    → least.pressure ≢ nan
    → (compare_priority now c r ≢ Ordering.lt)
      × (compare_priority now c r ≡ Ordering.eq
          → float_lt (float_suc c.pressure) r.pressure ≡ false)
unfolding roomier
anchored now c r least p q beaten number =
    let same = (compare_priority-IsOrder now).eq_right c r least p in
    (
      ground arith,
      λ tie. float_suc_bound least.pressure c.pressure r.pressure number (ground arith) q,
    )

-- A candidate that is not better is worse or of the same priority.
ranked :
    (now : Time) (c r : Candidate)
    → compare_priority now c r ≢ Ordering.lt
    → (compare_priority now c r ≡ Ordering.eq → float_lt (float_suc c.pressure) r.pressure ≡ false)
    → (compare_priority now r c ≡ Ordering.lt)
      ⊎ ((compare_priority now c r ≡ Ordering.eq)
          × (float_lt (float_suc c.pressure) r.pressure ≡ false))
ranked now c r no_better room = by_order (compare_priority now c r) refl
  where
    by_order :
        (o : Ordering)
        → compare_priority now c r ≡ o
        → (compare_priority now r c ≡ Ordering.lt)
          ⊎ ((compare_priority now c r ≡ Ordering.eq)
              × (float_lt (float_suc c.pressure) r.pressure ≡ false))
    by_order Ordering.lt e = absurd (no_better e)
    by_order Ordering.eq e = inr (e, room e)
    by_order Ordering.gt e = inl ((compare_priority-IsOrder now).flip c r e)

module _ (now : Time) (eligible : Candidate → Bool) (cs : List Candidate) where
  cohort_listed :
      (least r : Candidate)
      → Memᴰ least cs × (eligible least ≡ true)
      → From (in_cohort now eligible least) (some least) cs r
      → Memᴰ r cs × (in_cohort now eligible least r ≡ true)
  cohort_listed least r (m, e) (inr n) = n
  cohort_listed least r (m, e) (inl same) =
      let anchor : least ≡ r = ground arith in
      (
        subst (λ c. Memᴰ c cs) anchor m,
        subst (λ c. in_cohort now eligible least c ≡ true) anchor
            (in_cohort_self now eligible least e),
      )

  listed_of :
      (least : Candidate) → From eligible none cs least → Memᴰ least cs × (eligible least ≡ true)
  listed_of least (inl e) = absurd (cc)
  listed_of least (inr m) = m

  IsChoice-of :
      (least r : Candidate)
      → scan (roomier now) eligible none cs ≡ some least
      → scan idler (in_cohort now eligible least) (some least) cs ≡ some r
      → IsChoice now eligible cs least r
  IsChoice-of least r h k =
      let (from, _, roomy) =
        scan-Outcome (roomier now) (roomier_irrefl now) (roomier_trans now) eligible none cs least
          h in
      let (from', _, idle) =
        scan-Outcome idler idler_irrefl idler_trans (in_cohort now eligible least) (some least) cs r
          k in
      let anchor = listed_of least from in
      let member = cohort_listed least r anchor from' in
      record {
        least_listed = anchor.0;
        least_eligible = anchor.1;
        none_roomier = roomy;
        listed = member.0;
        cohort = member.1;
        none_idler = idle;
      }

  -- The choice is anchored, in the cohort of its anchor, and the idlest there.
  pub select_fresh_account-IsChoice :
      (r : Candidate)
      → select_fresh_account cs now eligible ≡ some r
      → (least : Candidate) × IsChoice now eligible cs least r
  unfolding select_fresh_account
  select_fresh_account-IsChoice r h = elim (Option-cases (scan (roomier now) eligible none cs)) [
    | inl e ↦ let g : none ≡ some r = rw (e, best_of_cohort) at h in absurd (cc)
    | inr (least, e) ↦ (least, IsChoice-of least r e (rw (e, best_of_cohort) at h))
  ]

  -- No account is chosen only if no candidate is eligible.
  pub select_fresh_account-none :
      select_fresh_account cs now eligible ≡ none → All (λ c. eligible c ≡ false) cs
  unfolding select_fresh_account
  select_fresh_account-none h = elim (Option-cases (scan (roomier now) eligible none cs)) [
    | inl e ↦ scan-none (roomier now) eligible cs e
    | inr (least, e) ↦
        let (r, found) = scan-some idler (in_cohort now eligible least) least cs in
        let g : scan idler (in_cohort now eligible least) (some least) cs ≡ none =
          rw (e, best_of_cohort) at h in
        absurd (cc)
  ]

  pub select_fresh_account-listed :
      (r : Candidate)
      → select_fresh_account cs now eligible ≡ some r
      → Memᴰ r cs × (eligible r ≡ true)
  select_fresh_account-listed r h =
      let (least, choice) = select_fresh_account-IsChoice r h in
      (choice.listed, (in_cohort-eligible now eligible least r choice.cohort).0)

  -- A chosen account is a listed, eligible candidate; no listed, eligible candidate has a better
  -- priority; and one of the same priority has no pressure that is lower by more than one point,
  -- provided that no eligible candidate's pressure is NaN.
  pub select_fresh_account_sound :
      (r c : Candidate)
      → ((d : Candidate) → Memᴰ d cs → eligible d ≡ true → d.pressure ≢ nan)
      → select_fresh_account cs now eligible ≡ some r
      → Memᴰ c cs
      → eligible c ≡ true
      → Memᴰ r cs
        × (eligible r ≡ true)
        × ((compare_priority now r c ≡ Ordering.lt)
            ⊎ ((compare_priority now c r ≡ Ordering.eq)
                × (float_lt (float_suc c.pressure) r.pressure ≡ false)))
  select_fresh_account_sound r c numbers h m f =
      let (least, choice) = select_fresh_account-IsChoice r h in
      let (e, p, q) = in_cohort-eligible now eligible least r choice.cohort in
      let beaten =
        All-mem (λ d. eligible d ≡ true → roomier now d least ≡ false) c cs choice.none_roomier m
          f in
      let (no_better, room) =
        anchored now c r least p q beaten
          (numbers least choice.least_listed choice.least_eligible) in
      (choice.listed, e, ranked now c r no_better room)
