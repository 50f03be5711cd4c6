-- ===== src/Routing/Select/Order.antt =====
-- The two comparisons of a fresh placement are orders up to ties.
use Prim.Native.String.{compare as string_compare}
use codex_balancer.Prelude.{
  compare, Ordering, cmp_or, float_compare, arith, IsOrder, cmp_or-IsOrder, on_key-IsOrder,
  compare-IsOrder, float_compare-IsOrder, string_compare-IsOrder,
}
use codex_balancer.Account.Window.{Time}
use codex_balancer.Account.Mode.{is_priority}
use codex_balancer.Routing.Candidate.{Candidate, routing_priority}
use codex_balancer.Routing.Select.{compare_flags, compare_deadlines, compare_priority}

compare_flags-IsOrder : IsOrder compare_flags
compare_flags-IsOrder = record {
  reflexive = λ a. ground arith;
  flip = λ a b h. ground arith;
  trans = λ a b c p q. ground arith;
  eq_left = λ a b c p. ground arith;
  eq_right = λ a b c p. ground arith;
}

compare_deadlines-IsOrder : IsOrder compare_deadlines
compare_deadlines-IsOrder = record {
  reflexive = λ a. ground arith;
  flip = λ a b h. ground arith;
  trans = λ a b c p q. ground arith;
  eq_left = λ a b c p. ground arith;
  eq_right = λ a b c p. ground arith;
}

module _ (now : Time) where
  pub compare_priority-IsOrder : IsOrder (compare_priority now)
  unfolding compare_priority
  compare_priority-IsOrder =
      cmp_or-IsOrder (on_key-IsOrder compare_flags-IsOrder (λ c. is_priority c.mode))
        (on_key-IsOrder compare_deadlines-IsOrder (λ c. routing_priority c now))

  -- `roomier` and `idler` before the sign is taken.
  abbrev pub room : Candidate → Candidate → Ordering
  room c d = cmp_or (compare_priority now c d) (float_compare c.pressure d.pressure)

  pub room-IsOrder : IsOrder room
  room-IsOrder =
      cmp_or-IsOrder compare_priority-IsOrder
        (on_key-IsOrder float_compare-IsOrder (λ c. c.pressure))

abbrev pub idleness : Candidate → Candidate → Ordering
idleness c d = cmp_or (compare c.last_used d.last_used) (string_compare c.id d.id)

pub idleness-IsOrder : IsOrder idleness
idleness-IsOrder =
    cmp_or-IsOrder (on_key-IsOrder compare-IsOrder (λ c. c.last_used))
      (on_key-IsOrder string_compare-IsOrder (λ c. c.id))
