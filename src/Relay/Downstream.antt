-- ===== src/Relay/Downstream.antt =====
-- The messages of the client: `handleDownstream` of internal/app/websocket_relay.go and what it calls,
-- with `startTurn` of responses_accounting.go.
use codex_balancer.Prelude.{
  ◌==◌, ℕ, ◌+◌, ltb, if◌then◌else◌, Bool, true, false, not, ◌&&◌, ◌||◌, Option, none, some, List,
  [], ◌∷◌, ◌++◌, length, String, str_eq,
}
use codex_balancer.Pricing.Tier.{Tier}
use codex_balancer.Routing.Candidate.{Candidate, weekly_exhausted, included_routing}
use codex_balancer.Routing.Route.{Decision}
use codex_balancer.Stats.Thread.{TurnMetadata}
use codex_balancer.Relay.State.{
  Frame, Envelope, websocket_request_portable, Turn, conn_closed, claim_released, opened, shut,
  socket_moved, socket_registered, turn_refused, setup_failed, Dial, Relay, max_websocket_message,
  emit, close_downstream, Write, write_upstream, restart_for_fast_mode,
}

-- What the rest of the server answers while one message is handled. `replace` is
-- `fastMode.override`; `dial` is asked for a model-compatible connection, with whether it replaces a
-- claim, and gives none where it fails; `transferred` is whether the claim could be transferred;
-- `usable` whether the new account is routable and its claim active.
pub record Answers : Type 0 where
  pub parse : Frame → Option Envelope
  pub policy_changed : Bool
  pub replace : Frame → Tier → Option (Frame × Tier)
  pub claim_active : Bool
  pub candidate : Candidate
  pub picked : Envelope → Decision
  pub allowed : Envelope → String → Bool
  pub dial : Envelope → Bool → Option Dial
  pub transferred : Dial → Bool
  pub socket_known : Bool
  pub usable : Dial → Bool
  pub policy_changed_late : Bool
  pub write : Frame → Write

unfoldable pub queue_pending : Frame → Relay → Relay × Bool
queue_pending frame r =
    let bytes = r.pending_bytes + length frame.content in
    let grown = record r { pending_bytes = bytes } in
    if ltb max_websocket_message bytes
    then (close_downstream "messages before first turn are too large" grown, false)
    else (record grown { pending = r.pending ++ frame ∷ [] }, true)

-- The loop of `pin` over the queued messages.
unfoldable pub write_all : (Frame → Write) → List Frame → Relay → Relay × Bool
unfolding write_upstream
write_all write [] r = (r, true)
write_all write (frame ∷ frames) r =
    let (after, went) = write_upstream write frame r in
    let rest = write_all write frames after in if went then rest else (after, false)

unfoldable pub pin : (Frame → Write) → Relay → Relay × Bool
unfolding write_all
pin write r =
    let (after, went) = write_all write r.pending (record r { pinned = true }) in
    if went then (record after { pending = [] }, true) else (after, false)

-- `switchAccount` once the claim is the new connection's.
unfoldable pub change_account : Answers → Dial → Relay → Relay × Bool
change_account ans next r =
    let closed = emit (shut r.current.account) (emit (conn_closed r.current.account) r) in
    let changed = record closed { current = next } in
    let placed =
      if ans.socket_known
      then emit (socket_moved r.current.account next.account) changed
      else emit (socket_registered next.account) changed in
    let ready = emit (opened next.account) placed in
    if ans.usable next
    then (ready, true)
    else (close_downstream "account became unavailable during connection setup" ready, false)

unfoldable pub switch_account : Answers → Dial → Relay → Relay × Bool
unfolding change_account
switch_account ans next r =
    let refused =
      close_downstream "account became unavailable during account switch"
        (emit (claim_released next.account) (emit (conn_closed next.account) r)) in
    if not r.current.claimed
    then change_account ans next r
    else if ans.transferred next
    then change_account ans (record next { claimed = true }) r
    else (refused, false)

abbrev pub switch_to : Answers → Option Dial → Relay → Relay × Bool
switch_to ans none r = (emit setup_failed r, false)
switch_to ans (some next) r = switch_account ans next r

unfoldable pub ensure_compatible_account : Answers → Envelope → Relay → Relay × Bool
unfolding switch_account
ensure_compatible_account ans event r =
    if ans.allowed event r.current.account
    then (r, true)
    else if r.pinned
    then (close_downstream "requested model requires another account" r, false)
    else switch_to ans (ans.dial event r.current.claimed) r

unfoldable pub stats_thread_key : String → TurnMetadata → String
stats_thread_key route metadata =
    if not (str_eq metadata.thread_id "") then metadata.thread_id else route

abbrev generates : Option Bool → Bool
generates none = true
generates (some b) = b

unfoldable pub start_turn : Envelope → Relay → Relay
unfolding stats_thread_key
start_turn event r =
    let turn : Turn = record {
      model = event.model;
      effort = event.effort;
      service_tier = event.service_tier;
      metadata = event.metadata;
      counted = generates event.generate;
      created = false;
      turn_state = event.turn_state;
      stats_thread = stats_thread_key r.thread event.metadata;
    } in
    record r { turns = r.turns ++ turn ∷ [] }

-- Whether the decision's account is the object at this address; a nil account is none.
abbrev is_object : ℕ → Option Candidate → Bool
is_object object none = false
is_object object (some c) = c.account == object

-- A pinned relay whose account is used up closes before a portable turn, unless routing, with
-- that account as the owner, comes to it on its credits.
unfoldable pub exhausted : Answers → Envelope → Relay → Bool
unfolding websocket_request_portable
exhausted ans event r =
    let c = ans.candidate in
    let d = ans.picked event in
    r.pinned
    && (c.spent || weekly_exhausted c || (c.allow_credits && not (included_routing c)))
    && websocket_request_portable event
    && (not (is_object r.current.object d.account) || not d.credit_fallback)

-- The end of `handleResponseCreate`, once the relay is pinned or failed to be.
unfoldable pub send_ready : Answers → Frame → Envelope → Relay × Bool → Relay × Bool
unfolding write_upstream start_turn restart_for_fast_mode
send_ready ans frame event (ready, pinned) =
    let (after, went) = write_upstream ans.write frame ready in
    if not pinned
    then (ready, false)
    else if ans.policy_changed_late
    then (restart_for_fast_mode ready, false)
    else if went
    then (start_turn event after, true)
    else (after, false)

unfoldable pub send_create : Answers → Frame → Envelope → Relay → Relay × Bool
unfolding pin send_ready
send_create ans frame event r =
    send_ready ans frame event (if r.pinned then (r, true) else pin ans.write r)

abbrev pub bound_to_account : Answers → Envelope → Relay → Bool
bound_to_account ans event r =
    (r.current.moved || not (ans.allowed event r.current.account))
    && not (websocket_request_portable event)

abbrev pub create_checked : Answers → Envelope → Relay → Option (Frame × Tier) → Relay × Bool
create_checked ans event r none = (close_downstream "could not apply fast mode" r, false)
create_checked ans event r (some (frame, tier)) =
    let e = record event { service_tier = tier } in
    let (ready, compatible) = ensure_compatible_account ans e r in
    let sent = send_create ans frame e ready in
    if not ans.claim_active
    then (close_downstream "route owner changed before turn" r, false)
    else if exhausted ans e r
    then (close_downstream "account exhausted before a new turn" r, false)
    else if bound_to_account ans e r
    then (emit (turn_refused "account_bound_request") r, false)
    else if compatible
    then sent
    else (ready, false)

unfoldable pub handle_response_create : Answers → Frame → Envelope → Relay → Relay × Bool
unfolding restart_for_fast_mode ensure_compatible_account send_create exhausted
handle_response_create ans frame event r =
    if ans.policy_changed
    then (restart_for_fast_mode r, false)
    else create_checked ans event r (ans.replace frame event.service_tier)

-- The event of a text that asks for a response.
abbrev pub created_of : Bool → Option Envelope → Option Envelope
created_of is_text none = none
created_of is_text (some event) =
    if is_text && str_eq event.kind "response.create" then some event else none

abbrev pub handle_as : Answers → Frame → Relay → Option Envelope → Relay × Bool
handle_as ans frame r none =
    if r.pinned then write_upstream ans.write frame r else queue_pending frame r
handle_as ans frame r (some event) = handle_response_create ans frame event r

-- A message of the client; an error of its connection ends the relay.
unfoldable pub handle_downstream : Answers → Option Frame → Relay → Relay × Bool
unfolding write_upstream queue_pending handle_response_create
handle_downstream ans none r = (r, false)
handle_downstream ans (some frame) r =
    handle_as ans frame r (created_of frame.is_text (ans.parse frame))
