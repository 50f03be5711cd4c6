-- ===== src/Server/Admission.antt =====
-- The gate of internal/app/admission.go as a state machine. The channel `idle` is modelled by whether
-- the gate's present one is closed; `wait` returns without an error once it is.
use codex_balancer.Prelude.{
  ℕ, ◌+◌, ◌-◌, ◌≤◌, ◌==◌, leb, ◌≡◌, Bool, true, false, ◌||◌, if◌then◌else◌, arith,
}

pub record AdmissionGate : Type 0 where
  pub active : ℕ
  pub limit : ℕ
  pub draining : Bool
  pub idle : Bool

abbrev pub max_active_proxy_requests : ℕ
max_active_proxy_requests = 128

unfoldable pub new_admission_gate : ℕ → AdmissionGate
new_admission_gate limit = record { active = 0; limit = limit; draining = false; idle = true }

unfoldable pub acquire : AdmissionGate → AdmissionGate × Bool
acquire g =
    if g.draining || leb g.limit g.active
    then (g, false)
    else let idle = if g.active == 0 then false else g.idle in
      (record g { active = g.active + 1; idle = idle }, true)

-- Only a request that was admitted releases.
unfoldable pub release : AdmissionGate → AdmissionGate
release g =
    let active = g.active - 1 in
    record g { active = active; idle = if active == 0 then true else g.idle }

unfoldable pub begin_drain : AdmissionGate → AdmissionGate
begin_drain g = record g { draining = true }

-- The gate with the number of requests that it has admitted and that have not released.
pub data Admits (limit : ℕ) : AdmissionGate → ℕ → Type 0 where
  fresh : Admits limit (new_admission_gate limit) 0
  admitted :
      {g : AdmissionGate} {n : ℕ}
      → Admits limit g n
      → (acquire g).1 ≡ true
      → Admits limit (acquire g).0 (n + 1)
  rejected :
      {g : AdmissionGate} {n : ℕ}
      → Admits limit g n
      → (acquire g).1 ≡ false
      → Admits limit (acquire g).0 n
  released : {g : AdmissionGate} {n : ℕ} → Admits limit g (n + 1) → Admits limit (release g) n
  drained : {g : AdmissionGate} {n : ℕ} → Admits limit g n → Admits limit (begin_drain g) n

-- However requests come and go, the gate counts those in flight, lets no more in than its limit,
-- and is idle exactly if none is in flight.
pub Admits-bounded :
    {limit : ℕ} {g : AdmissionGate} {n : ℕ}
    → Admits limit g n
    → (g.active ≡ n) × (g.limit ≡ limit) × (n ≤ limit) × (g.idle ≡ (n == 0))
unfolding new_admission_gate acquire release begin_drain
Admits-bounded fresh = ground arith
Admits-bounded (admitted a h) = let ih = Admits-bounded a in ground arith
Admits-bounded (rejected a h) = let ih = Admits-bounded a in ground arith
Admits-bounded (released a) = let ih = Admits-bounded a in ground arith
Admits-bounded (drained a) = let ih = Admits-bounded a in ground arith

-- A gate that drains admits nothing, and drains on after every operation.
pub draining_lem :
    (g : AdmissionGate)
    → g.draining ≡ true
    → ((acquire g).1 ≡ false)
      × ((acquire g).0 ≡ g)
      × ((release g).draining ≡ true)
      × ((begin_drain g).draining ≡ true)
unfolding acquire release begin_drain
draining_lem g h = ground arith
