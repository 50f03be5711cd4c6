-- ===== src/Relay/Flow.antt =====
-- The way of the client's messages through the relay of internal/app/websocket_relay.go.
use codex_balancer.Prelude.{
  ℕ, ◌+◌, ◌≤◌, ◌≡◌, refl, sym, ap, subst, ◌∙◌, ◌⊎◌, inl, inr, ltb, if◌then◌else◌, Bool, true, false,
  Bool-cases, not, Option, none, some, List, [], ◌∷◌, ◌++◌, length, String, arith,
}
use codex_balancer.Pricing.Tier.{Tier}
use codex_balancer.Relay.State.{
  Frame, Envelope, Effect, wrote, Dial, Relay, max_websocket_message, emit, write_upstream,
}
use codex_balancer.Relay.Downstream.{
  Answers, queue_pending, pin, ensure_compatible_account, start_turn, send_ready, send_create,
  exhausted, bound_to_account, create_checked,
}
use codex_balancer.Relay.Writes.{
  writes, to_account, wrote_all, to_account-append, writes-wrote_all, write_upstream-sent, pin-sent,
  ensure_compatible_account-Changed,
}

unfoldable pub bytes_of : List Frame → ℕ
bytes_of [] = 0
bytes_of (frame ∷ frames) = length frame.content + bytes_of frames

-- The frames went to the current account, in order.
abbrev pub IsSettled : Relay → List Frame → Type 0
IsSettled r frames =
    (r.pinned ≡ true) × (r.pending ≡ []) × (writes r.effects ≡ to_account r.current.account frames)

-- The frames wait for the first turn.
abbrev pub IsWaiting : Relay → List Frame → Type 0
IsWaiting r frames =
    (r.pinned ≡ false)
    × (r.pending ≡ frames)
    × (writes r.effects ≡ [])
    × (r.pending_bytes ≡ bytes_of frames)
    × (bytes_of frames ≤ max_websocket_message)
    × (r.turns ≡ [])

bytes_of-append :
    (frames : List Frame) (frame : Frame)
    → bytes_of (frames ++ frame ∷ []) ≡ bytes_of frames + length frame.content
unfolding bytes_of
bytes_of-append [] frame = omega arith
bytes_of-append (f ∷ frames) frame = let h = bytes_of-append frames frame in omega arith

pub queue_pending-IsWaiting :
    (frame : Frame) (r : Relay) (frames : List Frame)
    → (queue_pending frame r).1 ≡ true
    → IsWaiting r frames
    → IsWaiting (queue_pending frame r).0 (frames ++ frame ∷ [])
unfolding queue_pending
queue_pending-IsWaiting frame r frames h (free, queued, quiet, bytes, fits, turns) =
    let sum = bytes_of-append frames frame in
    elim (Bool-cases (ltb max_websocket_message (r.pending_bytes + length frame.content))) [
      | inl large ↦ let g : false ≡ true = rw large at h in absurd (ground arith)
      | inr small ↦ rw small (
        free,
        ap (λ fs. fs ++ frame ∷ []) queued,
        quiet,
        omega (arith, sum, bytes),
        ground arith,
        turns,
      )
    ]

send_ready-sent :
    (ans : Answers) (frame : Frame) (event : Envelope) (p : Relay × Bool)
    → (send_ready ans frame event p).1 ≡ true
    → (p.1 ≡ true)
      × ((send_ready ans frame event p).0
          ≡ start_turn event (emit (wrote p.0.current.account frame) p.0))
unfolding send_ready
send_ready-sent ans frame event (ready, false) h = absurd (let g : false ≡ true = h in ground arith)
send_ready-sent ans frame event (ready, true) h = elim (Bool-cases ans.policy_changed_late) [
  | inl late ↦ let g : false ≡ true = rw late at h in absurd (ground arith)
  | inr same ↦ elim (Bool-cases (write_upstream ans.write frame ready).1) [
    | inl went ↦
        rw same
          (rw went (refl, ap (start_turn event) (write_upstream-sent ans.write frame ready went)))
    | inr lost ↦ let g : false ≡ true = rw (same, lost) at h in absurd (ground arith)
  ]
]

-- A message that is written when everything before it went to the same account.
pub one_more :
    (account : String) (frame : Frame) (frames : List Frame) (effects : List Effect)
    → writes effects ≡ to_account account frames
    → writes (wrote account frame ∷ effects) ≡ to_account account (frames ++ frame ∷ [])
unfolding writes to_account
one_more account frame frames effects h =
    ap (λ l. l ++ (account, frame) ∷ []) h ∙ sym (to_account-append account frames (frame ∷ []))

send_create-IsSettled :
    (ans : Answers) (frame : Frame) (event : Envelope) (r : Relay) (frames : List Frame)
    → (send_create ans frame event r).1 ≡ true
    → IsSettled r frames ⊎ IsWaiting r frames
    → IsSettled (send_create ans frame event r).0 (frames ++ frame ∷ [])
unfolding send_create start_turn
send_create-IsSettled ans frame event r frames h (inl (pinned, empty, went)) =
    let choice = λ (b : Bool). if b then (r, true) else pin ans.write r in
    let chosen : choice r.pinned ≡ (r, true) = ap choice pinned in
    let (_, result) = send_ready-sent ans frame event (choice r.pinned) h in
    let now =
      result
      ∙ ap (λ (p : Relay × Bool). start_turn event (emit (wrote p.0.current.account frame) p.0))
          chosen in
    rw now (pinned, empty, one_more r.current.account frame frames r.effects went)
send_create-IsSettled ans frame event r frames h (inr (free, queued, quiet, bytes, fits, turns)) =
    let choice = λ (b : Bool). if b then (r, true) else pin ans.write r in
    let chosen : choice r.pinned ≡ pin ans.write r = ap choice free in
    let (ok, result) = send_ready-sent ans frame event (choice r.pinned) h in
    let pinned_ok : (pin ans.write r).1 ≡ true = ap (λ (p : Relay × Bool). p.1) (sym chosen) ∙ ok in
    let now =
      result
      ∙ ap (λ (p : Relay × Bool). start_turn event (emit (wrote p.0.current.account frame) p.0))
          chosen
      ∙ ap (λ (q : Relay). start_turn event (emit (wrote q.current.account frame) q))
          (pin-sent ans.write r pinned_ok) in
    rw now (
      refl,
      refl,
      one_more r.current.account frame frames (wrote_all r.current.account r.pending r.effects) (
          writes-wrote_all r.current.account r.pending r.effects
          ∙ ap (λ es. es ++ to_account r.current.account r.pending) quiet
          ∙ ap (to_account r.current.account) queued),
    )

-- A change of account before the relay is pinned loses nothing of what waits.
Changed-flow :
    (ans : Answers) (event : Envelope) (r : Relay) (frames : List Frame)
    → IsSettled r frames ⊎ IsWaiting r frames
    → let s = (ensure_compatible_account ans event r).0 in IsSettled s frames ⊎ IsWaiting s frames
Changed-flow ans event r frames (inl (pinned, empty, went)) =
    let (pending, bytes, pin_kept, turns, written, same) =
      ensure_compatible_account-Changed ans event r in
    elim same [
      | inl free ↦ absurd (let g : true ≡ false = sym pinned ∙ free in ground arith)
      | inr current ↦ inl (
        pin_kept ∙ pinned,
        pending ∙ empty,
        written ∙ went ∙ ap (λ (d : Dial). to_account d.account frames) (sym current),
      )
    ]
Changed-flow ans event r frames (inr (free, queued, quiet, bytes, fits, turns)) =
    let (pending, bytes_kept, pin_kept, turns_kept, written, _) =
      ensure_compatible_account-Changed ans event r in
    inr (
      pin_kept ∙ free,
      pending ∙ queued,
      written ∙ quiet,
      bytes_kept ∙ bytes,
      fits,
      turns_kept ∙ turns,
    )

-- The message that is sent for one that was received, after `fastMode.override`.
abbrev pub replaced : Frame → Option (Frame × Tier) → Frame
replaced frame none = frame
replaced frame (some (f, tier)) = f

-- A message that is sent has passed every guard.
all_passed :
    (active spent bound compatible : Bool) (w x y z sends : Relay × Bool)
    → w.1 ≡ false
    → x.1 ≡ false
    → y.1 ≡ false
    → z.1 ≡ false
    → (if not active
        then w
        else if spent
        then x
        else if bound
        then y
        else if compatible
        then sends
        else z).1
      ≡ true
    → (if not active
        then w
        else if spent
        then x
        else if bound
        then y
        else if compatible
        then sends
        else z)
      ≡ sends
all_passed false spent bound compatible w x y z sends a b c d h = absurd (ground (arith, h, a))
all_passed true true bound compatible w x y z sends a b c d h = absurd (ground (arith, h, b))
all_passed true false true compatible w x y z sends a b c d h = absurd (ground (arith, h, c))
all_passed true false false false w x y z sends a b c d h = absurd (ground (arith, h, d))
all_passed true false false true w x y z sends a b c d h = refl

pub create_checked-IsSettled :
    (ans : Answers) (frame : Frame) (event : Envelope) (r : Relay) (o : Option (Frame × Tier))
    (frames : List Frame)
    → (create_checked ans event r o).1 ≡ true
    → IsSettled r frames ⊎ IsWaiting r frames
    → IsSettled (create_checked ans event r o).0 (frames ++ replaced frame o ∷ [])
create_checked-IsSettled ans frame event r none frames h flow =
    absurd (let g : false ≡ true = h in ground arith)
create_checked-IsSettled ans frame event r (some (f, tier)) frames h flow =
    let e = record event { service_tier = tier } in
    let ready = (ensure_compatible_account ans e r).0 in
    let sends = send_create ans f e ready in
    let whole =
      all_passed ans.claim_active (exhausted ans e r) (bound_to_account ans e r)
        (ensure_compatible_account ans e r).1 _ _ _ _ sends refl refl refl refl h in
    subst (λ (s : Relay × Bool). IsSettled s.0 (frames ++ f ∷ [])) (sym whole)
      (send_create-IsSettled ans f e ready frames (ap (λ (s : Relay × Bool). s.1) (sym whole) ∙ h)
        (Changed-flow ans e r frames flow))
