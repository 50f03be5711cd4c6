-- ===== src/Refresh/Callers.antt =====
-- The single flight of internal/app/account_refresh.go with its callers and goroutines: every
-- interleaving of the locked parts of `refreshOwned`.
use codex_balancer.Prelude.{ℕ, ◌+◌, ◌==◌, ◌≤◌, if◌then◌else◌, Bool, none, List, [], ◌∷◌, String}
use codex_balancer.Refresh.Flight.{
  new_operation, Flight, Entered, waits_end, lifetime_over, needs_sign_in, unregistered, joined,
  enter, leave, finish,
}

-- The number of callers that wait for an operation.
unfoldable pub callers_of : ℕ → List ℕ → ℕ
callers_of i [] = 0
callers_of i (j ∷ waiting) = let rest = callers_of i waiting in if j == i then rest + 1 else rest

unfoldable pub remove_one : ℕ → List ℕ → List ℕ
remove_one i [] = []
remove_one i (j ∷ waiting) = let rest = remove_one i waiting in if j == i then waiting else j ∷ rest

-- The operations that callers wait for, one entry a caller, and those whose goroutine runs.
pub record System : Type 0 where
  pub flight : Flight
  pub waiting : List ℕ
  pub running : List ℕ

abbrev pub idle : System
idle = record {
  flight = record { inflight = none; reauth = ""; operations = λ i. new_operation; next = 0 };
  waiting = [];
  running = [];
}

-- A caller that made an operation starts its goroutine.
abbrev pub enters : System → Flight × Entered → System
enters s (f, joined i) = record {
  flight = f;
  waiting = i ∷ s.waiting;
  running = if f.next == s.flight.next then s.running else i ∷ s.running;
}
enters s (f, waits_end i) = record s { flight = f }
enters s (f, lifetime_over) = record s { flight = f }
enters s (f, needs_sign_in) = record s { flight = f }
enters s (f, unregistered) = record s { flight = f }

-- A caller leaves when it gives up or has the result; a goroutine ends once; the need to sign in
-- changes at any time.
pub data Step : System → System → Type 0 where
  entering :
      {s : System} (alive registered : Bool) → Step s (enters s (enter alive registered s.flight))
  leaving :
      {s : System} (i : ℕ)
      → 1 ≤ callers_of i s.waiting
      → Step s (record s { flight = leave i s.flight; waiting = remove_one i s.waiting })
  ending :
      {s : System} (i : ℕ) (err : List String)
      → 1 ≤ callers_of i s.running
      → Step s (record s { flight = finish i err s.flight; running = remove_one i s.running })
  marking :
      {s : System} (reauth : String)
      → Step s (record s { flight = record s.flight { reauth = reauth } })

pub data Reach : System → Type 0 where
  fresh : Reach idle
  later : {s t : System} → Reach s → Step s t → Reach t
