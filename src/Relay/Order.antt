-- ===== src/Relay/Order.antt =====
-- What reaches the upstream through the relay of internal/app/websocket_relay.go, and in what order.
use codex_balancer.Prelude.{
  ◌≡◌, refl, sym, ap, subst, ◌∙◌, ◌⊎◌, inl, inr, if◌then◌else◌, Bool, true, false, Bool-cases,
  Option, none, some, List, [], ◌∷◌, ◌++◌, String, arith,
}
use codex_balancer.Relay.State.{
  Frame, Envelope, Dial, Relay, new_relay, write_upstream, restart_for_fast_mode,
}
use codex_balancer.Relay.Downstream.{
  Answers, queue_pending, handle_response_create, create_checked, created_of, handle_as,
  handle_downstream,
}
use codex_balancer.Relay.Upstream.{UpstreamAnswers, handle_upstream}
use codex_balancer.Relay.Upheld.{Upheld, handle_upstream-Upheld}
use codex_balancer.Relay.Writes.{writes, to_account, write_upstream-sent}
use codex_balancer.Relay.Flow.{
  bytes_of, IsSettled, IsWaiting, replaced, one_more, queue_pending-IsWaiting,
  create_checked-IsSettled,
}

abbrev sent_for : Answers → Frame → Option Envelope → Frame
sent_for ans frame none = frame
sent_for ans frame (some event) = replaced frame (ans.replace frame event.service_tier)

-- What is to be sent for a message of the client.
abbrev pub received : Answers → Frame → Frame
received ans frame = sent_for ans frame (created_of frame.is_text (ans.parse frame))

-- A relay that goes on, after messages of the client and of the upstream in any order, with any answers
-- of the server; the frames are those of the client.
pub data Runs : Relay → List Frame → Type 0 where
  begun : (initial : Dial) (thread : String) → Runs (new_relay initial thread) []
  handled :
      {r : Relay} {frames : List Frame} (ans : Answers) (frame : Frame)
      → Runs r frames
      → (handle_downstream ans (some frame) r).1 ≡ true
      → Runs (handle_downstream ans (some frame) r).0 (frames ++ received ans frame ∷ [])
  answered :
      {r : Relay} {frames : List Frame} (ans : UpstreamAnswers) (frame : Frame)
      → Runs r frames
      → (handle_upstream ans (some frame) r).1 ≡ true
      → Runs (handle_upstream ans (some frame) r).0 frames

handle_as-flow :
    (ans : Answers) (frame : Frame) (r : Relay) (o : Option Envelope) (frames : List Frame)
    → (handle_as ans frame r o).1 ≡ true
    → IsSettled r frames ⊎ IsWaiting r frames
    → let s = (handle_as ans frame r o).0 in
      let later = frames ++ sent_for ans frame o ∷ [] in IsSettled s later ⊎ IsWaiting s later
unfolding handle_response_create
handle_as-flow ans frame r none frames h (inl (pinned, empty, went)) =
    let choice =
      λ (b : Bool). if b then write_upstream ans.write frame r else queue_pending frame r in
    let chosen : choice r.pinned ≡ write_upstream ans.write frame r = ap choice pinned in
    let ok : (write_upstream ans.write frame r).1 ≡ true =
      ap (λ (p : Relay × Bool). p.1) (sym chosen) ∙ h in
    let result = ap (λ (p : Relay × Bool). p.0) chosen ∙ write_upstream-sent ans.write frame r ok in
    inl (
      subst (λ s. IsSettled s (frames ++ frame ∷ [])) (sym result)
        (pinned, empty, one_more r.current.account frame frames r.effects went))
handle_as-flow ans frame r none frames h (inr waiting) =
    let choice =
      λ (b : Bool). if b then write_upstream ans.write frame r else queue_pending frame r in
    let chosen : choice r.pinned ≡ queue_pending frame r = ap choice waiting.0 in
    let ok : (queue_pending frame r).1 ≡ true = ap (λ (p : Relay × Bool). p.1) (sym chosen) ∙ h in
    inr (
      subst (λ (p : Relay × Bool). IsWaiting p.0 (frames ++ frame ∷ [])) (sym chosen)
        (queue_pending-IsWaiting frame r frames ok waiting))
handle_as-flow ans frame r (some event) frames h flow =
    let checked =
      create_checked-IsSettled ans frame event r (ans.replace frame event.service_tier) frames in
    elim (Bool-cases ans.policy_changed) [
      | inl changed ↦ absurd (let g : false ≡ true = rw changed at h in ground arith)
      | inr same ↦
          (let tried = ans.replace frame event.service_tier in
            let choice = λ (b : Bool).
              if b then (restart_for_fast_mode r, false) else create_checked ans event r tried in
            let chosen : choice ans.policy_changed ≡ create_checked ans event r tried =
              ap choice same in
            let ok : (create_checked ans event r tried).1 ≡ true =
              ap (λ (p : Relay × Bool). p.1) (sym chosen) ∙ h in
            inl (
              subst (λ (p : Relay × Bool). IsSettled p.0 (frames ++ replaced frame tried ∷ []))
                (sym chosen) (checked ok flow)))
    ]

Upheld-flow :
    (r s : Relay) (frames : List Frame)
    → Upheld r s
    → IsSettled r frames ⊎ IsWaiting r frames
    → IsSettled s frames ⊎ IsWaiting s frames
Upheld-flow r s frames (queue, size, pin, account, written, turns) (inl (pinned, empty, went)) =
    inl (pin ∙ pinned, queue ∙ empty, written ∙ went ∙ ap (λ a. to_account a frames) (sym account))
Upheld-flow r s frames (queue, size, pin, account, written, turns)
      (inr (free, queued, quiet, bytes, fits, none_begun)) =
    inr (pin ∙ free, queue ∙ queued, written ∙ quiet, size ∙ bytes, fits, turns none_begun)

-- While the relay goes on, through messages of the client and of the upstream in any order, nothing that
-- the client sent is lost, repeated, reordered or split over accounts: either it is pinned, nothing waits, and every message was written, in order, to the account that it
-- is connected to, a request for a response as `fastMode.override` left it; or it is not pinned, nothing
-- was written, no turn was begun, and every message waits, in order, the bytes counted and within the
-- limit.
pub Runs-flow :
    {r : Relay} {frames : List Frame} → Runs r frames → IsSettled r frames ⊎ IsWaiting r frames
unfolding new_relay writes bytes_of handle_downstream
Runs-flow (begun initial thread) = inr (refl, refl, refl, refl, omega arith, refl)
Runs-flow (handled {r} {frames} ans frame run h) =
    handle_as-flow ans frame r (created_of frame.is_text (ans.parse frame)) frames h (Runs-flow run)
Runs-flow (answered {r} {frames} ans frame run h) =
    let s = (handle_upstream ans (some frame) r).0 in
    Upheld-flow r s frames (handle_upstream-Upheld ans (some frame) r) (Runs-flow run)
