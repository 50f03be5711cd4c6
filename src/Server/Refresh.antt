-- ===== src/Server/Refresh.antt =====
-- The count of refresh operations, internal/app/refresh_operations.go, as a state machine, and the
-- mutex of context_mutex.go. An error is its text; `idle` is whether the present channel is closed.
use codex_balancer.Prelude.{
  ℕ, ◌+◌, ◌-◌, ◌==◌, ◌≤◌, ◌≡◌, ◌⊎◌, Bool, true, false, not, ◌&&◌, if◌then◌else◌, Option, none, some,
  String, arith,
}

pub record RefreshOperations : Type 0 where
  pub active : ℕ
  pub stopping : Bool
  pub idle : Bool
  pub failure : Option String

abbrev pub is_none : Option String → Bool
is_none none = true
is_none (some e) = false

-- The zero value as `init` leaves it.
unfoldable pub init : RefreshOperations
init = record { active = 0; stopping = false; idle = true; failure = none }

unfoldable pub start : RefreshOperations → RefreshOperations × Bool
start g =
    if g.stopping
    then (g, false)
    else let idle = if g.active == 0 then false else g.idle in
      (record g { active = g.active + 1; idle = idle }, true)

unfoldable pub finish : RefreshOperations → Option String → RefreshOperations
finish g completion_err =
    let failure =
      if g.stopping && is_none g.failure && not (is_none completion_err)
      then completion_err
      else g.failure in
    let active = g.active - 1 in
    record g { failure = failure; active = active; idle = if active == 0 then true else g.idle }

unfoldable pub stop : RefreshOperations → RefreshOperations
stop g = record g { stopping = true }

-- The operations in any order; an operation that has started finishes once.
pub data Runs : RefreshOperations → ℕ → Type 0 where
  initial : Runs init 0
  started :
      {g : RefreshOperations} {n : ℕ} → Runs g n → (start g).1 ≡ true → Runs (start g).0 (n + 1)
  refused : {g : RefreshOperations} {n : ℕ} → Runs g n → (start g).1 ≡ false → Runs (start g).0 n
  finished :
      {g : RefreshOperations} {n : ℕ} (err : Option String) → Runs g (n + 1) → Runs (finish g err) n
  stopped : {g : RefreshOperations} {n : ℕ} → Runs g n → Runs (stop g) n

-- The count is that of the operations under way, and the channel is closed exactly if there are
-- none; a failure is kept only after the registration was stopped.
pub Runs-counted :
    {g : RefreshOperations} {n : ℕ}
    → Runs g n
    → (g.active ≡ n) × (g.idle ≡ (n == 0)) × ((g.stopping ≡ true) ⊎ (g.failure ≡ none))
unfolding init start finish stop
Runs-counted initial = ground arith
Runs-counted (started a h) = let ih = Runs-counted a in ground arith
Runs-counted (refused a h) = let ih = Runs-counted a in ground arith
Runs-counted (finished err a) = let ih = Runs-counted a in ground arith
Runs-counted (stopped a) = let ih = Runs-counted a in ground arith

-- What happens to the registration after it was stopped.
pub data After (g : RefreshOperations) : RefreshOperations → Type 0 where
  here : After g g
  starts : {h : RefreshOperations} → After g h → After g (start h).0
  finishes : {h : RefreshOperations} (err : Option String) → After g h → After g (finish h err)
  stops : {h : RefreshOperations} → After g h → After g (stop h)

-- After a stop nothing starts, and the number of operations never grows.
pub After-stopped :
    {g h : RefreshOperations}
    → g.stopping ≡ true
    → After g h
    → (h.stopping ≡ true) × ((start h).1 ≡ false) × (h.active ≤ g.active)
unfolding start finish stop
After-stopped s here = ground arith
After-stopped s (starts a) = let ih = After-stopped s a in ground arith
After-stopped s (finishes err a) = let ih = After-stopped s a in ground arith
After-stopped s (stops a) = let ih = After-stopped s a in ground arith

-- The first failure after a stop is the one that stays.
pub After-failure :
    (g h : RefreshOperations) (e : String)
    → g.stopping ≡ true
    → g.failure ≡ none
    → After (finish g (some e)) h
    → h.failure ≡ some e
unfolding start finish stop
After-failure g h e s f a = kept a
  where
    kept : {k : RefreshOperations} → After (finish g (some e)) k → k.failure ≡ some e
    kept here = ground arith
    kept (starts b) = let ih = kept b in ground arith
    kept (finishes err b) = let ih = kept b in ground arith
    kept (stops b) = let ih = kept b in ground arith

-- `contextMutex`: whether the token lies in the channel, and whether the context is done when it is
-- looked at before and after the token is taken. A lock without a token waits.
pub data Locking : Type 0 where
  canceled : Locking
  waiting : Locking
  locked : Locking

unfoldable pub lock_context : Bool → Bool → Bool → Bool × Locking
lock_context token before after =
    if before
    then (token, canceled)
    else if not token
    then (token, if after then canceled else waiting)
    else if after
    then (true, canceled)
    else (false, locked)

-- `none` is the panic of an unlock of a mutex that is not locked.
unfoldable pub unlock : Bool → Option Bool
unlock true = none
unlock false = some true

-- An attempt takes the token exactly if it locks, and never locks without one.
pub lock_context_lem :
    (token before after : Bool)
    → let (left, result) = lock_context token before after in
      ((result ≡ locked) × (token ≡ true) × (left ≡ false) × (unlock left ≡ some token))
      ⊎ (((result ≡ canceled) ⊎ (result ≡ waiting)) × (left ≡ token))
unfolding lock_context unlock
lock_context_lem token before after = ground arith
