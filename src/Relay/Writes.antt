-- ===== src/Relay/Writes.antt =====
-- What the relay of internal/app/websocket_relay.go has written to its upstream.
use codex_balancer.Prelude.{
  ◌≡◌, refl, sym, ap, ◌∙◌, ◌⊎◌, inl, inr, true, false, Bool-cases, Option, none, some, List, [],
  ◌∷◌, ◌++◌, String, arith,
}
use codex_balancer.Relay.State.{
  Frame, Envelope, Effect, wrote, write_failed, conn_closed, claim_released, opened, shut,
  socket_moved, socket_registered, owner_preserved, downstream_closed, turn_refused, setup_failed,
  upstream_failed, rejected, forwarded, account_rejected, token_rejected, turn_created,
  turn_finished, Dial, Relay, emit, Write, unroutable, failed, sent, write_result, write_upstream,
}
use codex_balancer.Relay.Downstream.{
  Answers, write_all, pin, change_account, switch_account, switch_to, ensure_compatible_account,
}

-- The frames written, oldest first, each with its account.
unfoldable pub writes : List Effect → List (String × Frame)
writes [] = []
writes (wrote account frame ∷ effects) = writes effects ++ (account, frame) ∷ []
writes (write_failed account ∷ effects) = writes effects
writes (conn_closed account ∷ effects) = writes effects
writes (claim_released account ∷ effects) = writes effects
writes (opened account ∷ effects) = writes effects
writes (shut account ∷ effects) = writes effects
writes (socket_moved from to ∷ effects) = writes effects
writes (socket_registered account ∷ effects) = writes effects
writes (owner_preserved account ∷ effects) = writes effects
writes (downstream_closed reason ∷ effects) = writes effects
writes (turn_refused code ∷ effects) = writes effects
writes (setup_failed ∷ effects) = writes effects
writes (upstream_failed ∷ effects) = writes effects
writes (rejected reason ∷ effects) = writes effects
writes (forwarded frame ∷ effects) = writes effects
writes (account_rejected account ∷ effects) = writes effects
writes (token_rejected account ∷ effects) = writes effects
writes (turn_created thread counted ∷ effects) = writes effects
writes (turn_finished thread ∷ effects) = writes effects

unfoldable pub to_account : String → List Frame → List (String × Frame)
to_account account [] = []
to_account account (frame ∷ frames) = (account, frame) ∷ to_account account frames

abbrev pub wrote_all : String → List Frame → List Effect → List Effect
wrote_all account [] effects = effects
wrote_all account (frame ∷ frames) effects =
    wrote_all account frames (wrote account frame ∷ effects)

pub append_assoc {ℓ} : {A : Type ℓ} (xs ys zs : List A) → (xs ++ ys) ++ zs ≡ xs ++ (ys ++ zs)
append_assoc [] ys zs = refl
append_assoc (x ∷ xs) ys zs = ap (λ l. x ∷ l) (append_assoc xs ys zs)

pub append_nil {ℓ} : {A : Type ℓ} (xs : List A) → xs ++ [] ≡ xs
append_nil [] = refl
append_nil (x ∷ xs) = ap (λ l. x ∷ l) (append_nil xs)

pub to_account-append :
    (account : String) (xs ys : List Frame)
    → to_account account (xs ++ ys) ≡ to_account account xs ++ to_account account ys
unfolding to_account
to_account-append account [] ys = refl
to_account-append account (x ∷ xs) ys = ap (λ l. (account, x) ∷ l) (to_account-append account xs ys)

pub writes-wrote_all :
    (account : String) (frames : List Frame) (effects : List Effect)
    → writes (wrote_all account frames effects) ≡ writes effects ++ to_account account frames
unfolding writes to_account
writes-wrote_all account [] effects = sym (append_nil (writes effects))
writes-wrote_all account (frame ∷ frames) effects =
    writes-wrote_all account frames (wrote account frame ∷ effects)
    ∙ append_assoc (writes effects) ((account, frame) ∷ []) (to_account account frames)

-- A write that succeeds only adds itself to the effects.
pub write_upstream-sent :
    (write : Frame → Write) (frame : Frame) (r : Relay)
    → (write_upstream write frame r).1 ≡ true
    → (write_upstream write frame r).0 ≡ emit (wrote r.current.account frame) r
unfolding write_upstream write_result
write_upstream-sent write frame r h = by_result (write frame) h
  where
    by_result :
        (w : Write)
        → (write_result w frame r).1 ≡ true
        → (write_result w frame r).0 ≡ emit (wrote r.current.account frame) r
    by_result unroutable h = absurd (ground arith)
    by_result failed h = absurd (ground arith)
    by_result sent h = refl

pub write_all-sent :
    (write : Frame → Write) (frames : List Frame) (r : Relay)
    → (write_all write frames r).1 ≡ true
    → (write_all write frames r).0
      ≡ record r { effects = wrote_all r.current.account frames r.effects }
unfolding write_all
write_all-sent write [] r h = refl
write_all-sent write (frame ∷ frames) r h = elim (Bool-cases (write_upstream write frame r).1) [
  | inl went ↦
      let after = write_upstream-sent write frame r went in
      let h2 : (write_all write frames (write_upstream write frame r).0).1 ≡ true = rw went at h in
      rw went (write_all-sent write frames (write_upstream write frame r).0 h2 ∙ rw after refl)
  | inr stopped ↦ let h2 : false ≡ true = rw stopped at h in absurd (ground arith)
]

pub pin-sent :
    (write : Frame → Write) (r : Relay)
    → (pin write r).1 ≡ true
    → (pin write r).0 ≡ record r {
      pinned = true;
      pending = [];
      effects = wrote_all r.current.account r.pending r.effects;
    }
unfolding pin
pin-sent write r h =
    let before = record r { pinned = true } in
    elim (Bool-cases (write_all write r.pending before).1) [
      | inl went ↦ rw went (
          ap (λ (q : Relay). record q { pending = [] })
            (write_all-sent write r.pending before went))
      | inr stopped ↦ let h2 : false ≡ true = rw stopped at h in absurd (ground arith)
    ]

-- A change of account leaves the queue, the turns and what was written alone, and is not made once
-- the relay is pinned.
abbrev pub Changed : Relay → Relay → Type 0
Changed r s =
    (s.pending ≡ r.pending)
    × (s.pending_bytes ≡ r.pending_bytes)
    × (s.pinned ≡ r.pinned)
    × (s.turns ≡ r.turns)
    × (writes s.effects ≡ writes r.effects)
    × ((r.pinned ≡ false) ⊎ (s.current ≡ r.current))

abbrev Flowing : Relay → Relay → Type 0
Flowing r s =
    (s.pending ≡ r.pending)
    × (s.pending_bytes ≡ r.pending_bytes)
    × (s.pinned ≡ r.pinned)
    × (s.turns ≡ r.turns)
    × (writes s.effects ≡ writes r.effects)

change_account-Flowing :
    (ans : Answers) (next : Dial) (r : Relay) → Flowing r (change_account ans next r).0
unfolding change_account writes
change_account-Flowing ans next r = elim (Bool-cases (ans.usable next)) [
  | inl usable ↦ rw usable (elim (Bool-cases ans.socket_known) [
    | inl known ↦ rw known (refl, refl, refl, refl, refl)
    | inr new ↦ rw new (refl, refl, refl, refl, refl)
  ])
  | inr lost ↦ rw lost (elim (Bool-cases ans.socket_known) [
    | inl known ↦ rw known (refl, refl, refl, refl, refl)
    | inr new ↦ rw new (refl, refl, refl, refl, refl)
  ])
]

switch_to-Flowing :
    (ans : Answers) (next : Option Dial) (r : Relay) → Flowing r (switch_to ans next r).0
unfolding switch_account writes
switch_to-Flowing ans none r = (refl, refl, refl, refl, refl)
switch_to-Flowing ans (some next) r = elim (Bool-cases r.current.claimed) [
  | inr unclaimed ↦ rw unclaimed (change_account-Flowing ans next r)
  | inl claimed ↦ rw claimed (elim (Bool-cases (ans.transferred next)) [
    | inl moved ↦ rw moved (change_account-Flowing ans (record next { claimed = true }) r)
    | inr refused ↦ rw refused (refl, refl, refl, refl, refl)
  ])
]

pub ensure_compatible_account-Changed :
    (ans : Answers) (event : Envelope) (r : Relay)
    → Changed r (ensure_compatible_account ans event r).0
unfolding ensure_compatible_account switch_account writes
ensure_compatible_account-Changed ans event r =
    elim (Bool-cases (ans.allowed event r.current.account)) [
      | inl allowed ↦ rw allowed (refl, refl, refl, refl, refl, inr refl)
      | inr other ↦ rw other (elim (Bool-cases r.pinned) [
        | inl pinned ↦ rw pinned (refl, refl, refl, refl, refl, inr refl)
        | inr free ↦ rw free (
            let (a, b, c, d, e) =
              switch_to-Flowing ans (ans.dial event r.current.claimed)
                (record r { pinned = false }) in
            (a, b, c, d, e, inl refl))
      ])
    ]
