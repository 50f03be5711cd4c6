-- ===== src/Examples/Gates.antt =====
-- The theorems on the server's gates and sockets, at concrete states.
use codex_balancer.Prelude.{
  ◌≡◌, ◌≢◌, ◌≤◌, ◌==◌, ◌⊎◌, refl, true, false, none, some, [], ◌∷◌, String, str_eq, eq_iff,
  if◌then◌else◌, arith,
}
use codex_balancer.Server.Admission.{
  AdmissionGate, new_admission_gate, acquire, Admits, fresh, admitted, Admits-bounded,
}
use codex_balancer.Server.Refresh.{
  RefreshOperations, init, start, finish, Runs, initial, started, Runs-counted, here, finishes,
  After-stopped,
}
use codex_balancer.Server.Sockets.{ActiveWebSockets, socket_at}

abbrev gate : AdmissionGate
gate = (acquire (new_admission_gate 2)).0

gate-Admits : Admits 2 gate 1
unfolding acquire new_admission_gate
gate-Admits = admitted fresh accepted
  where
    accepted : (acquire (new_admission_gate 2)).1 ≡ true
    accepted = refl

Admits-bounded_example : (gate.active ≡ 1) × (gate.limit ≡ 2) × (1 ≤ 2) × (gate.idle ≡ (1 == 0))
Admits-bounded_example = Admits-bounded gate-Admits

abbrev closing : AdmissionGate
closing = record { active = 1; limit = 2; draining = true; idle = false }

abbrev running : RefreshOperations
running = (start init).0

running_counted : Runs running 1
unfolding start init
running_counted = started initial accepted
  where
    accepted : (start init).1 ≡ true
    accepted = refl

Runs-counted_example :
    (running.active ≡ 1)
    × (running.idle ≡ (1 == 0))
    × ((running.stopping ≡ true) ⊎ (running.failure ≡ none))
Runs-counted_example = Runs-counted running_counted

abbrev halted : RefreshOperations
halted = record { active = 2; stopping = true; idle = false; failure = none }

abbrev failed : RefreshOperations
failed = finish halted (some "disk")

After-stopped_example :
    (failed.stopping ≡ true) × ((start failed).1 ≡ false) × (failed.active ≤ halted.active)
After-stopped_example = After-stopped {g = halted} refl (finishes (some "disk") here)

abbrev sockets : ActiveWebSockets String
sockets = record { next = 2; by_account = ("a", (1, "one") ∷ (2, "two") ∷ []) ∷ [] }

socket_found : socket_at sockets "a" 1 ≡ some "one"
unfolding socket_at codex_balancer.Prelude.Maps.lookup
socket_found = refl

abbrev a : String
a = "a"

abbrev b : String
b = "b"

apart : a ≢ b
apart h = let t = (eq_iff a b).1 h in let f : str_eq a b ≡ false = refl in cc
