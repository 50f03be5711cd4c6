-- ===== src/Routing/Select.antt =====
-- The choice of a fresh account: `comparePriority` and `selectFreshAccount` of internal/app/pool.go.
pub mod Order
pub mod Best
pub mod Permute
use codex_balancer.Prelude.{
  compare, Ordering, if◌then◌else◌, cmp_or, is_lt, is_eq, Bool, true, false, not, ◌&&◌, Option,
  none, some, List, [], ◌∷◌, Float64, float_compare, float_lt, float_suc, scan,
}
use Prim.Native.String.{compare as string_compare}
use codex_balancer.Account.Window.{Time}
use codex_balancer.Account.Mode.{is_priority}
use codex_balancer.Routing.Candidate.{Candidate, routing_priority}

-- True stands before false.
abbrev pub compare_flags : Bool → Bool → Ordering
compare_flags true true = Ordering.eq
compare_flags true false = Ordering.lt
compare_flags false true = Ordering.gt
compare_flags false false = Ordering.eq

-- Prioritized candidates stand first, by deadline.
abbrev pub compare_deadlines : Option (Time × Float64) → Option (Time × Float64) → Ordering
compare_deadlines none none = Ordering.eq
compare_deadlines none (some q) = Ordering.gt
compare_deadlines (some p) none = Ordering.lt
compare_deadlines (some (t, _)) (some (u, _)) = compare t u

unfoldable pub compare_priority : Time → Candidate → Candidate → Ordering
compare_priority now c other =
    cmp_or (compare_flags (is_priority c.mode) (is_priority other.mode))
      (compare_deadlines (routing_priority c now) (routing_priority other now))

-- The test of the first loop: a better priority, or the same with less pressure.
unfoldable pub roomier : Time → Candidate → Candidate → Bool
roomier now c least =
    is_lt (cmp_or (compare_priority now c least) (float_compare c.pressure least.pressure))

-- The test of the second loop: used longer ago, or at the same time with the smaller id.
unfoldable pub idler : Candidate → Candidate → Bool
idler c best = is_lt (cmp_or (compare c.last_used best.last_used) (string_compare c.id best.id))

-- The candidates within one point of the least pressure, at the same priority.
unfoldable pub in_cohort : Time → (Candidate → Bool) → Candidate → Candidate → Bool
in_cohort now eligible least c =
    eligible c
    && is_eq (compare_priority now c least)
    && not (float_lt (float_suc least.pressure) c.pressure)

abbrev pub best_of_cohort :
    Time → (Candidate → Bool) → List Candidate → Option Candidate → Option Candidate
best_of_cohort now eligible candidates none = none
best_of_cohort now eligible candidates (some least) =
    scan idler (in_cohort now eligible least) (some least) candidates

unfoldable pub select_fresh_account : List Candidate → Time → (Candidate → Bool) → Option Candidate
select_fresh_account candidates now eligible =
    best_of_cohort now eligible candidates (scan (roomier now) eligible none candidates)
