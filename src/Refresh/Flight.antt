-- ===== src/Refresh/Flight.antt =====
-- The single flight of `refreshOwned`, internal/app/account_refresh.go: one operation is in flight at
-- a time, and callers wait for it. Operations are numbered in place of pointers, and the number of
-- one that is not made yet stands for an operation without waiters.
use codex_balancer.Prelude.{
  ℕ, ◌+◌, ◌-◌, ◌==◌, if◌then◌else◌, Bool, true, false, not, ◌&&◌, Option, none, some, List, String,
  str_eq,
}

-- `result` is there when `done` is closed.
pub record Operation : Type 0 where
  pub waiters : ℕ
  pub abandoned : Bool
  pub canceled : Bool
  pub result : Option (List String)

abbrev pub new_operation : Operation
new_operation = record { waiters = 0; abandoned = false; canceled = false; result = none }

-- The fields of the account that the mutex guards, and the operations made so far.
pub record Flight : Type 0 where
  pub inflight : Option ℕ
  pub reauth : String
  pub operations : ℕ → Operation
  pub next : ℕ

-- What the first locked part comes to: to wait for the end of an abandoned operation, an error, or
-- to wait for the result of an operation.
pub data Entered : Type 0 where
  waits_end : ℕ → Entered
  lifetime_over : Entered
  needs_sign_in : Entered
  unregistered : Entered
  joined : ℕ → Entered

unfoldable pub set_operation : ℕ → Operation → Flight → Flight
set_operation i op f = record f { operations = λ j. if j == i then op else f.operations j }

unfoldable pub join : ℕ → Flight → Flight
unfolding set_operation
join i f = let op = f.operations i in set_operation i (record op { waiters = op.waiters + 1 }) f

-- The first locked part when nothing is in flight; `alive` is whether the owner's lifetime is not
-- over, `registered` what `operations.start` gives.
unfoldable pub start_operation : Bool → Bool → Flight → Flight × Entered
unfolding set_operation join
start_operation alive registered f =
    let made = record f { inflight = some f.next; next = f.next + 1 } in
    if not alive
    then (f, lifetime_over)
    else if not (str_eq f.reauth "")
    then (f, needs_sign_in)
    else if not registered
    then (f, unregistered)
    else (join f.next (set_operation f.next new_operation made), joined f.next)

unfoldable pub enter_at : Option ℕ → Bool → Bool → Flight → Flight × Entered
unfolding start_operation join
enter_at none alive registered f = start_operation alive registered f
enter_at (some i) alive registered f =
    if (f.operations i).abandoned then (f, waits_end i) else (join i f, joined i)

unfoldable pub enter : Bool → Bool → Flight → Flight × Entered
unfolding enter_at
enter alive registered f = enter_at f.inflight alive registered f

abbrev pub is_inflight : Option ℕ → ℕ → Bool
is_inflight none i = false
is_inflight (some j) i = j == i

-- The second locked part, when the caller stops waiting for an operation.
unfoldable pub leave : ℕ → Flight → Flight
unfolding set_operation
leave i f =
    let op = f.operations i in
    let left = record op { waiters = op.waiters - 1 } in
    if left.waiters == 0 && is_inflight f.inflight i
    then set_operation i (record left { abandoned = true; canceled = true }) f
    else set_operation i left f

-- The end of the goroutine of an operation, which publishes its error.
unfoldable pub finish : ℕ → List String → Flight → Flight
unfolding set_operation
finish i err f =
    let op = f.operations i in
    record (set_operation i (record op { result = some err }) f) { inflight = none }
