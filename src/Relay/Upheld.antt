-- ===== src/Relay/Upheld.antt =====
-- What a message of the upstream leaves of the flow to the upstream, in the relay of
-- internal/app/websocket_relay.go.
use codex_balancer.Prelude.{
  ◌≡◌, refl, sym, ap, ◌∙◌, if◌then◌else◌, Bool, true, false, Option, none, some, List, [], ◌∷◌, not,
  ◌&&◌, ◌||◌, str_eq,
}
use codex_balancer.Relay.State.{
  Frame, Turn, Relay, preserve_owner, emit, close_downstream, forwarded, account_rejected,
}
use codex_balancer.Relay.Rejection.{
  UpstreamEvent, Rejection, rejection_none, unauthorized, rate_limited, usage_limit,
  connection_limit, model_capacity, websocket_error_is, websocket_rejection,
}
use codex_balancer.Relay.Upstream.{
  UpstreamAnswers, handle_upstream_event, after_upstream_event, deliver, decide, handle_parsed,
  handle_prepared, handle_upstream, can_retry_usage_limit, has_turn_state, is_unauthorized,
  accept_turn, response_created, mark_created, response_finished, finish_first, is_rejection,
  finishes,
}
use codex_balancer.Relay.Writes.{writes}

-- The queue, the pinning, the account and what was written are as before, and no turn was begun.
abbrev pub Upheld : Relay → Relay → Type 0
Upheld r s =
    (s.pending ≡ r.pending)
    × (s.pending_bytes ≡ r.pending_bytes)
    × (s.pinned ≡ r.pinned)
    × (s.current.account ≡ r.current.account)
    × (writes s.effects ≡ writes r.effects)
    × (r.turns ≡ [] → s.turns ≡ [])

same : (r : Relay) → Upheld r r
same r = (refl, refl, refl, refl, refl, λ h. h)

trans : (r s t : Relay) → Upheld r s → Upheld s t → Upheld r t
trans r s t (p, b, q, c, w, n) (p', b', q', c', w', n') =
    (p' ∙ p, b' ∙ b, q' ∙ q, c' ∙ c, w' ∙ w, λ h. n' (n h))

either :
    (r : Relay) (b : Bool) (x y : Relay × Bool)
    → Upheld r x.0
    → Upheld r y.0
    → Upheld r (if b then x else y).0
either r true x y p q = p
either r false x y p q = q

either_relay :
    (r : Relay) (b : Bool) (x y : Relay) → Upheld r x → Upheld r y → Upheld r (if b then x else y)
either_relay r true x y p q = p
either_relay r false x y p q = q

preserve_owner-Upheld : (r : Relay) → Upheld r (preserve_owner r)
unfolding preserve_owner writes
preserve_owner-Upheld r =
    either_relay r r.current.claimed _ r (refl, refl, refl, refl, refl, λ h. h) (same r)

accept_turn-Upheld :
    (accepts : Bool) (r : Relay) (p : List Turn × Option Turn)
    → (r.turns ≡ [] → p.0 ≡ [])
    → Upheld r (accept_turn accepts r p).0
unfolding writes
accept_turn-Upheld accepts r (turns, none) h = same r
accept_turn-Upheld accepts r (turns, some t) h =
    either r accepts _ _ (refl, refl, refl, refl, refl, h) (same r)

response_created-Upheld : (accepts : Bool) (r : Relay) → Upheld r (response_created accepts r).0
unfolding response_created mark_created
response_created-Upheld accepts r =
    accept_turn-Upheld accepts r (mark_created r.turns) (λ e. ap (λ ts. (mark_created ts).0) e)

finish_first-Upheld :
    (r : Relay) (turns : List Turn) → r.turns ≡ turns → Upheld r (finish_first r turns)
unfolding writes
finish_first-Upheld r [] e = same r
finish_first-Upheld r (t ∷ turns) e =
    (refl, refl, refl, refl, refl, λ h. absurd (let g = sym e ∙ h in cc))

handle_upstream_event-Upheld :
    (ans : UpstreamAnswers) (e : UpstreamEvent) (r : Relay)
    → Upheld r (handle_upstream_event ans e r).0
unfolding handle_upstream_event response_finished writes
handle_upstream_event-Upheld ans e r =
    let noted =
      if is_rejection (websocket_rejection e)
      then emit (account_rejected r.current.account) r
      else r in
    let made = (response_created ans.accepts noted).0 in
    let allowed = (response_created ans.accepts noted).1 in
    let first : Upheld r noted =
      either_relay r (is_rejection (websocket_rejection e)) _ r
        (refl, refl, refl, refl, refl, λ h. h) (same r) in
    let created = trans r noted made first (response_created-Upheld ans.accepts noted) in
    let closed : Upheld r (close_downstream "route owner became unavailable" made) = created in
    let finished =
      trans r noted (finish_first noted noted.turns) first
        (finish_first-Upheld noted noted.turns refl) in
    either r (str_eq e.kind "response.created") _ _ (either_relay r allowed made _ created closed)
      (either r (finishes e.kind) _ _ finished first)

after_upstream_event-Upheld :
    (rejection : Rejection) (r : Relay) → Upheld r (after_upstream_event rejection r).0
unfolding after_upstream_event writes
after_upstream_event-Upheld rejection_none r = same r
after_upstream_event-Upheld connection_limit r = same r
after_upstream_event-Upheld unauthorized r = (refl, refl, refl, refl, refl, λ h. h)
after_upstream_event-Upheld rate_limited r = (refl, refl, refl, refl, refl, λ h. h)
after_upstream_event-Upheld usage_limit r = (refl, refl, refl, refl, refl, λ h. h)
after_upstream_event-Upheld model_capacity r = (refl, refl, refl, refl, refl, λ h. h)

deliver-Upheld :
    (ans : UpstreamAnswers) (frame : Frame) (rejection : Rejection) (r : Relay)
    → Upheld r (deliver ans frame rejection r).0
unfolding deliver writes
deliver-Upheld ans frame rejection r =
    either r (ans.delivers frame) _ _
      (after_upstream_event-Upheld rejection (emit (forwarded frame) r)) (same r)

decide-Upheld :
    (ans : UpstreamAnswers) (frame : Frame) (e : UpstreamEvent) (retry bound : Bool)
    (rejection : Rejection) (r : Relay)
    → Upheld r (decide ans frame e retry bound rejection r).0
unfolding writes
decide-Upheld ans frame e retry bound rejection_none r = deliver-Upheld ans frame rejection_none r
decide-Upheld ans frame e retry bound connection_limit r =
    deliver-Upheld ans frame connection_limit r
decide-Upheld ans frame e retry bound unauthorized r = (refl, refl, refl, refl, refl, λ h. h)
decide-Upheld ans frame e retry bound model_capacity r = preserve_owner-Upheld r
decide-Upheld ans frame e retry bound usage_limit r =
    either r retry _ _ (preserve_owner-Upheld r) (deliver-Upheld ans frame usage_limit r)
decide-Upheld ans frame e retry bound rate_limited r =
    let kept = if bound then preserve_owner r else r in
    let first = either_relay r bound (preserve_owner r) r (preserve_owner-Upheld r) (same r) in
    either r
      (str_eq e.kind "error"
        && websocket_error_is e "rate_limit_exceeded"
        && (not bound || not (str_eq r.thread "")))
      _ _ first
      (trans r kept (deliver ans frame rate_limited kept).0 first
        (deliver-Upheld ans frame rate_limited kept))

handle_parsed-Upheld :
    (ans : UpstreamAnswers) (frame : Frame) (r : Relay) (o : Option UpstreamEvent)
    → Upheld r (handle_parsed ans frame r o).0
handle_parsed-Upheld ans frame r none = deliver-Upheld ans frame rejection_none r
handle_parsed-Upheld ans frame r (some e) =
    let usage = ans.usage_event frame e in
    let noted = (handle_upstream_event ans e r).0 in
    let first = handle_upstream_event-Upheld ans e r in
    let decided =
      decide ans usage e (can_retry_usage_limit ans r) (has_turn_state ans r)
        (websocket_rejection e) noted in
    let decided_too =
      decide-Upheld ans usage e (can_retry_usage_limit ans r) (has_turn_state ans r)
        (websocket_rejection e) noted in
    either r (is_unauthorized (websocket_rejection e)) _ _
      (decide-Upheld ans usage e false false unauthorized r)
      (either r (handle_upstream_event ans e r).1 _ _ (trans r noted decided.0 first decided_too)
        first)

-- Whatever the upstream sends, and whether the relay goes on or not.
pub handle_upstream-Upheld :
    (ans : UpstreamAnswers) (o : Option Frame) (r : Relay) → Upheld r (handle_upstream ans o r).0
unfolding handle_upstream writes
handle_upstream-Upheld ans none r = (refl, refl, refl, refl, refl, λ h. h)
handle_upstream-Upheld ans (some frame) r = by_prepared (ans.prepare frame)
  where
    by_prepared : (p : Option Frame) → Upheld r (handle_prepared ans r p).0
    by_prepared none = (refl, refl, refl, refl, refl, λ h. h)
    by_prepared (some prepared) =
        handle_parsed-Upheld ans prepared r (if prepared.is_text then ans.parse prepared else none)
