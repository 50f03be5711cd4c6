-- ===== src/Relay/Upstream.antt =====
-- The messages of the upstream: `handleUpstream` of internal/app/websocket_relay.go and what it calls,
-- with the turns of responses_accounting.go.
use codex_balancer.Prelude.{
  if◌then◌else◌, Bool, true, false, not, ◌&&◌, ◌||◌, Option, none, some, List, [], ◌∷◌, any, String,
  str_eq,
}
use codex_balancer.Account.Window.{Time}
use codex_balancer.Routing.Candidate.{Candidate, available}
use codex_balancer.Relay.State.{
  Frame, Turn, upstream_failed, rejected, forwarded, account_rejected, token_rejected, turn_created,
  turn_finished, Relay, emit, close_downstream, preserve_owner, is_blank,
}
use codex_balancer.Relay.Rejection.{
  UpstreamEvent, Rejection, rejection_none, unauthorized, rate_limited, usage_limit,
  connection_limit, model_capacity, websocket_error_is, websocket_rejection,
}

-- What the rest of the server answers while one message is handled. `prepare` is that of the
-- downstream; `header_turn_state` whether the request or the upstream's answer carries a turn state;
-- `accepts` whether `acceptResponseRoute` allows the route; `delivers` whether the client took the
-- message and more may follow.
pub record UpstreamAnswers : Type 0 where
  pub prepare : Frame → Option Frame
  pub parse : Frame → Option UpstreamEvent
  pub usage_event : Frame → UpstreamEvent → Frame
  pub header_turn_state : Bool
  pub allowed : Turn → String → Bool
  pub candidates : List Candidate
  pub now : Time
  pub accepts : Bool
  pub delivers : Frame → Bool

unfoldable pub has_turn_state : UpstreamAnswers → Relay → Bool
has_turn_state ans r = ans.header_turn_state || any (λ t. not (is_blank t.turn_state)) r.turns

abbrev only_turn : List Turn → Option Turn
only_turn [] = none
only_turn (t ∷ []) = if t.created then none else some t
only_turn (t ∷ u ∷ turns) = none

abbrev retry_elsewhere : UpstreamAnswers → Relay → Option Turn → Bool
retry_elsewhere ans r none = false
retry_elsewhere ans r (some t) =
    any (λ c. not (str_eq c.id r.current.account) && available c ans.now && ans.allowed t c.id)
      ans.candidates

unfoldable pub can_retry_usage_limit : UpstreamAnswers → Relay → Bool
unfolding has_turn_state
can_retry_usage_limit ans r =
    not (str_eq r.thread "")
    && not (has_turn_state ans r)
    && retry_elsewhere ans r (only_turn r.turns)

-- The first turn that is not created yet is; the others stay.
unfoldable pub mark_created : List Turn → List Turn × Option Turn
mark_created [] = ([], none)
mark_created (t ∷ turns) =
    let (rest, found) = mark_created turns in
    if t.created then (t ∷ rest, found) else (record t { created = true } ∷ turns, some t)

abbrev pub accept_turn : Bool → Relay → List Turn × Option Turn → Relay × Bool
accept_turn accepts r (turns, none) = (r, true)
accept_turn accepts r (turns, some t) =
    if accepts
    then (
      emit (turn_created t.stats_thread t.counted)
          (record r { turns = turns; current = record r.current { moved = false } }),
      true,
    )
    else (r, false)

-- `turn_created` stands for what the acceptance of a turn records in the statistics.
unfoldable pub response_created : Bool → Relay → Relay × Bool
unfolding mark_created
response_created accepts r = accept_turn accepts r (mark_created r.turns)

abbrev pub finish_first : Relay → List Turn → Relay
finish_first r [] = r
finish_first r (t ∷ turns) = emit (turn_finished t.stats_thread) (record r { turns = turns })

unfoldable pub response_finished : Relay → Relay
response_finished r = finish_first r r.turns

abbrev pub is_rejection : Rejection → Bool
is_rejection rejection_none = false
is_rejection unauthorized = true
is_rejection rate_limited = true
is_rejection usage_limit = true
is_rejection connection_limit = true
is_rejection model_capacity = true

abbrev pub finishes : String → Bool
finishes kind =
    str_eq kind "error"
    || str_eq kind "response.completed"
    || str_eq kind "response.failed"
    || str_eq kind "response.incomplete"

-- `account_rejected` and `token_rejected` stand for `handleWebSocketRejection` and
-- `handleInBandUnauthorized`.
unfoldable pub handle_upstream_event : UpstreamAnswers → UpstreamEvent → Relay → Relay × Bool
unfolding response_created response_finished websocket_rejection
handle_upstream_event ans e r =
    let noted =
      if is_rejection (websocket_rejection e)
      then emit (account_rejected r.current.account) r
      else r in
    let (made, allowed) = response_created ans.accepts noted in
    if str_eq e.kind "response.created"
    then (if allowed then made else close_downstream "route owner became unavailable" made, allowed)
    else if finishes e.kind
    then (response_finished noted, true)
    else (noted, true)

unfoldable pub after_upstream_event : Rejection → Relay → Relay × Bool
after_upstream_event rejection_none r = (r, true)
after_upstream_event connection_limit r = (r, true)
after_upstream_event unauthorized r =
    (close_downstream "account rejected websocket request" r, false)
after_upstream_event rate_limited r =
    (close_downstream "account rejected websocket request" r, false)
after_upstream_event usage_limit r =
    (close_downstream "account rejected websocket request" r, false)
after_upstream_event model_capacity r =
    (close_downstream "account rejected websocket request" r, false)

abbrev pub reject : String → Relay → Relay × Bool
reject reason r = (emit (rejected reason) r, false)

-- The end of `handleUpstream`: the message goes to the client.
unfoldable pub deliver : UpstreamAnswers → Frame → Rejection → Relay → Relay × Bool
unfolding after_upstream_event
deliver ans frame rejection r =
    if ans.delivers frame
    then after_upstream_event rejection (emit (forwarded frame) r)
    else (r, false)

abbrev is_usage_limit : Rejection → Bool
is_usage_limit usage_limit = true
is_usage_limit rejection_none = false
is_usage_limit unauthorized = false
is_usage_limit rate_limited = false
is_usage_limit connection_limit = false
is_usage_limit model_capacity = false

-- What is decided of a rejection before the turns change: a retry of the request elsewhere, and one
-- after a rate limit, with whether the turn is bound to the account.
abbrev pub decide :
    UpstreamAnswers → Frame → UpstreamEvent → Bool → Bool → Rejection → Relay → Relay × Bool
decide ans frame e retry bound usage_limit r =
    if retry
    then reject "account exhausted; reconnect with full history" (preserve_owner r)
    else deliver ans frame usage_limit r
decide ans frame e retry bound rate_limited r =
    let kept = if bound then preserve_owner r else r in
    if str_eq e.kind "error"
      && websocket_error_is e "rate_limit_exceeded"
      && (not bound || not (str_eq r.thread ""))
    then reject "account temporarily rate limited" kept
    else deliver ans frame rate_limited kept
decide ans frame e retry bound model_capacity r = reject "model at capacity" (preserve_owner r)
decide ans frame e retry bound unauthorized r =
    reject "account rejected websocket request" (emit (token_rejected r.current.account) r)
decide ans frame e retry bound rejection_none r = deliver ans frame rejection_none r
decide ans frame e retry bound connection_limit r = deliver ans frame connection_limit r

abbrev pub is_unauthorized : Rejection → Bool
is_unauthorized unauthorized = true
is_unauthorized rejection_none = false
is_unauthorized usage_limit = false
is_unauthorized rate_limited = false
is_unauthorized connection_limit = false
is_unauthorized model_capacity = false

abbrev pub handle_parsed : UpstreamAnswers → Frame → Relay → Option UpstreamEvent → Relay × Bool
handle_parsed ans frame r none = deliver ans frame rejection_none r
handle_parsed ans frame r (some e) =
    let usage = ans.usage_event frame e in
    let rejection = websocket_rejection e in
    let (noted, allowed) = handle_upstream_event ans e r in
    let decided =
      decide ans usage e (can_retry_usage_limit ans r) (has_turn_state ans r) rejection noted in
    if is_unauthorized rejection
    then decide ans usage e false false unauthorized r
    else if allowed
    then decided
    else (noted, false)

abbrev pub handle_prepared : UpstreamAnswers → Relay → Option Frame → Relay × Bool
handle_prepared ans r none = (close_downstream "invalid upstream response" r, false)
handle_prepared ans r (some frame) =
    handle_parsed ans frame r (if frame.is_text then ans.parse frame else none)

-- A message of the upstream; an error of its connection ends the relay.
unfoldable pub handle_upstream : UpstreamAnswers → Option Frame → Relay → Relay × Bool
unfolding handle_upstream_event deliver can_retry_usage_limit has_turn_state preserve_owner
handle_upstream ans none r = (emit upstream_failed r, false)
handle_upstream ans (some frame) r = handle_prepared ans r (ans.prepare frame)
