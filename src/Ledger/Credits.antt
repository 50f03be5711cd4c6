-- ===== src/Ledger/Credits.antt =====
-- The list of routed credits with its running totals: internal/app/credits.go. An int64 is its 64-bit
-- pattern; `sort.Search` is the first index at which the test holds, as the list is in order of time
-- (Ledger/Totals).
use codex_balancer.Prelude.{
  ℕ, ◌+◌, ◌-◌, ◌*◌, ◌%◌, ◌^◌, ◌==◌, ltb, if◌then◌else◌, Bool, not, ◌&&◌, ◌||◌, Option, none, some,
  List, [], ◌∷◌, length,
}
use codex_balancer.Account.Window.{Time, hour, is_zero, after, before, earlier}

pub record RoutedCreditPoint : Type 0 where
  pub at : Time
  pub nano_credits : ℕ
  pub unpriced : ℕ
  pub total_credits : ℕ
  pub total_unpriced : ℕ

abbrev pub wrap_add : ℕ → ℕ → ℕ
wrap_add a b = (a + b) % 2 ^ 64

abbrev pub wrap_sub : ℕ → ℕ → ℕ
wrap_sub a b = (a + (2 ^ 64 - b)) % 2 ^ 64

abbrev pub routed_credit_history : ℕ
routed_credit_history = 8 * 24 * hour

-- The loop that writes the totals.
unfoldable pub retotal : ℕ → ℕ → List RoutedCreditPoint → List RoutedCreditPoint
retotal credits unpriced [] = []
retotal credits unpriced (p ∷ points) =
    let c = wrap_add credits p.nano_credits in
    let u = wrap_add unpriced p.unpriced in
    record p { total_credits = c; total_unpriced = u } ∷ retotal c u points

-- The point is put before the first later one, and the totals are written from there on.
unfoldable pub insert_point :
    ℕ → ℕ → RoutedCreditPoint → List RoutedCreditPoint → List RoutedCreditPoint
unfolding retotal
insert_point credits unpriced point [] = retotal credits unpriced (point ∷ [])
insert_point credits unpriced point (p ∷ points) =
    let rest = insert_point p.total_credits p.total_unpriced point points in
    if after p.at point.at then retotal credits unpriced (point ∷ p ∷ points) else p ∷ rest

unfoldable pub index_from : Time → List RoutedCreditPoint → ℕ
index_from cutoff [] = 0
index_from cutoff (p ∷ points) =
    let rest = index_from cutoff points in if not (before p.at cutoff) then 0 else rest + 1

unfoldable pub drop : ℕ → List RoutedCreditPoint → List RoutedCreditPoint
drop n [] = []
drop n (p ∷ points) = let rest = drop (n - 1) points in if n == 0 then p ∷ points else rest

unfoldable pub prune_routed_credits : List RoutedCreditPoint → Time → List RoutedCreditPoint
unfolding index_from drop
prune_routed_credits points cutoff =
    let index = index_from cutoff points in
    if ltb index 1024 || ltb (index * 2) (length points) then points else drop (index - 1) points

abbrev pub last_of : RoutedCreditPoint → List RoutedCreditPoint → RoutedCreditPoint
last_of p [] = p
last_of p (q ∷ points) = last_of q points

-- The cutoff lies eight days before the last point.
abbrev pub prune_old : List RoutedCreditPoint → List RoutedCreditPoint
prune_old [] = []
prune_old (p ∷ points) =
    prune_routed_credits (p ∷ points) (earlier (last_of p points).at routed_credit_history)

unfoldable pub add_routed_credits :
    List RoutedCreditPoint → Time → ℕ → Bool → List RoutedCreditPoint
unfolding insert_point prune_routed_credits
add_routed_credits points at nano_credits known =
    let point : RoutedCreditPoint = record {
      at = at;
      nano_credits = nano_credits;
      unpriced = if known then 0 else 1;
      total_credits = 0;
      total_unpriced = 0;
    } in
    prune_old (insert_point 0 0 point points)

-- The point before the first one that is not before the start.
unfoldable pub last_before :
    Time → Option RoutedCreditPoint → List RoutedCreditPoint → Option RoutedCreditPoint
last_before start found [] = found
last_before start found (p ∷ points) =
    let rest = last_before start (some p) points in if not (before p.at start) then found else rest

-- Credits, unpriced responses and the time since which they are known.
abbrev pub since_point :
    Time → RoutedCreditPoint → RoutedCreditPoint → Option RoutedCreditPoint → ℕ × ℕ × Time
since_point start first last none = (
  wrap_add (wrap_sub last.total_credits first.total_credits) first.nano_credits,
  wrap_add (wrap_sub last.total_unpriced first.total_unpriced) first.unpriced,
  if after first.at start then first.at else start,
)
since_point start first last (some b) = (
  wrap_sub last.total_credits b.total_credits,
  wrap_sub last.total_unpriced b.total_unpriced,
  start,
)

-- `routedCreditsSince`, with the nano credits before they are divided into a float64. An int64 is
-- positive if its pattern is below 2 ^ 63 and not 0.
unfoldable pub routed_credits_since : List RoutedCreditPoint → Time → Option (ℕ × Time)
unfolding last_before
routed_credits_since [] start = none
routed_credits_since (p ∷ points) start =
    let (credits, unpriced, since) =
      since_point start p (last_of p points) (last_before start none (p ∷ points)) in
    if is_zero start
    then none
    else if ltb 0 unpriced && ltb unpriced (2 ^ 63)
    then none
    else some (credits, since)
