-- ===== src/Relay/Verdict.antt =====
-- When the relay of internal/app/websocket_relay.go goes on after a message of the upstream.
use codex_balancer.Prelude.{
  subst, ◌≡◌, refl, sym, ap, ◌∙◌, ◌⊎◌, inl, inr, if◌then◌else◌, Bool, true, false, Bool-cases,
  Option-cases, not, ◌&&◌, ◌||◌, Option, none, some, List, ◌∷◌, str_eq, arith,
}
use codex_balancer.Relay.State.{Frame, Effect, forwarded, Relay, preserve_owner}
use codex_balancer.Relay.Rejection.{
  UpstreamEvent, Rejection, rejection_none, unauthorized, rate_limited, usage_limit,
  connection_limit, model_capacity, websocket_error_is, websocket_rejection,
}
use codex_balancer.Relay.Upstream.{
  reject, UpstreamAnswers, handle_upstream_event, after_upstream_event, deliver, decide,
  handle_parsed, handle_prepared, handle_upstream, can_retry_usage_limit, has_turn_state,
  is_unauthorized,
}

-- The newest effect is that the client took this message.
abbrev pub IsDelivered : UpstreamAnswers → Frame → Relay → Type 0
IsDelivered ans frame s =
    (ans.delivers frame ≡ true)
    × ((effects : List Effect) × (s.effects ≡ forwarded frame ∷ effects))

abbrev IsMild : Rejection → Type 0
IsMild rejection = (rejection ≡ rejection_none) ⊎ (rejection ≡ connection_limit)

deliver-true :
    (ans : UpstreamAnswers) (frame : Frame) (rejection : Rejection) (r : Relay)
    → (deliver ans frame rejection r).1 ≡ true
    → IsMild rejection × IsDelivered ans frame (deliver ans frame rejection r).0
unfolding deliver after_upstream_event
deliver-true ans frame rejection r h = elim (Bool-cases (ans.delivers frame)) [
  | inr lost ↦ absurd (let g : false ≡ true = rw lost at h in ground arith)
  | inl took ↦ by_rejection rejection h took
]
  where
    by_rejection :
        (rejection : Rejection)
        → (deliver ans frame rejection r).1 ≡ true
        → ans.delivers frame ≡ true
        → IsMild rejection × IsDelivered ans frame (deliver ans frame rejection r).0
    by_rejection rejection_none h took = (inl refl, (took, (r.effects, rw took refl)))
    by_rejection connection_limit h took = (inr refl, (took, (r.effects, rw took refl)))
    by_rejection unauthorized h took = absurd (let g : false ≡ true = rw took at h in ground arith)
    by_rejection rate_limited h took = absurd (let g : false ≡ true = rw took at h in ground arith)
    by_rejection usage_limit h took = absurd (let g : false ≡ true = rw took at h in ground arith)
    by_rejection model_capacity h took =
        absurd (let g : false ≡ true = rw took at h in ground arith)

decide-true :
    (ans : UpstreamAnswers) (frame : Frame) (e : UpstreamEvent) (retry bound : Bool)
    (rejection : Rejection) (r : Relay)
    → (decide ans frame e retry bound rejection r).1 ≡ true
    → IsMild rejection × IsDelivered ans frame (decide ans frame e retry bound rejection r).0
decide-true ans frame e retry bound rejection_none r h = deliver-true ans frame rejection_none r h
decide-true ans frame e retry bound connection_limit r h =
    deliver-true ans frame connection_limit r h
decide-true ans frame e retry bound unauthorized r h =
    absurd (let g : false ≡ true = h in ground arith)
decide-true ans frame e retry bound model_capacity r h =
    absurd (let g : false ≡ true = h in ground arith)
decide-true ans frame e true bound usage_limit r h =
    absurd (let g : false ≡ true = h in ground arith)
decide-true ans frame e false bound usage_limit r h = deliver-true ans frame usage_limit r h
decide-true ans frame e retry bound rate_limited r h =
    guarded
      (str_eq e.kind "error"
        && websocket_error_is e "rate_limit_exceeded"
        && (not bound || not (str_eq r.thread "")))
      (if bound then preserve_owner r else r) h
  where
    guarded :
        (c : Bool) (kept : Relay)
        → (if c
            then reject "account temporarily rate limited" kept
            else deliver ans frame rate_limited kept).1
          ≡ true
        → IsMild rate_limited
          × IsDelivered ans frame
              (if c
                then reject "account temporarily rate limited" kept
                else deliver ans frame rate_limited kept).0
    guarded true kept g = absurd (let f : false ≡ true = g in ground arith)
    guarded false kept g = deliver-true ans frame rate_limited kept g

-- Of two ways that end the relay and one that may not, it is the last if the relay goes on.
last_way :
    (ends allowed : Bool) (x y z : Relay × Bool)
    → x.1 ≡ false
    → z.1 ≡ false
    → (if ends then x else if allowed then y else z).1 ≡ true
    → (if ends then x else if allowed then y else z) ≡ y
last_way true allowed x y z a b h = absurd (ground (arith, a, h))
last_way false false x y z a b h = absurd (ground (arith, b, h))
last_way false true x y z a b h = refl

-- The event of a text message that can be read as one.
abbrev pub event_of : UpstreamAnswers → Frame → Option UpstreamEvent
event_of ans frame = if frame.is_text then ans.parse frame else none

abbrev pub IsAccepted : Option UpstreamEvent → Type 0
IsAccepted none = Unit
IsAccepted (some e) = IsMild (websocket_rejection e)

-- What the client is sent for a prepared message: the message, or what `upstreamUsageEvent` makes of
-- it if there is an event in it.
abbrev pub message_for : UpstreamAnswers → Frame → Option UpstreamEvent → Frame
message_for ans prepared none = prepared
message_for ans prepared (some e) = ans.usage_event prepared e

handle_parsed-true :
    (ans : UpstreamAnswers) (frame : Frame) (r : Relay) (o : Option UpstreamEvent)
    → (handle_parsed ans frame r o).1 ≡ true
    → IsAccepted o × IsDelivered ans (message_for ans frame o) (handle_parsed ans frame r o).0
handle_parsed-true ans frame r none h = (tt, (deliver-true ans frame rejection_none r h).1)
handle_parsed-true ans frame r (some e) h =
    let usage = ans.usage_event frame e in
    let (noted, allowed) = handle_upstream_event ans e r in
    let decided =
      decide ans usage e (can_retry_usage_limit ans r) (has_turn_state ans r)
        (websocket_rejection e) noted in
    let whole =
      last_way (is_unauthorized (websocket_rejection e)) allowed
        (decide ans usage e false false unauthorized r) decided (noted, false) refl refl h in
    let (mild, delivered) =
      decide-true ans usage e (can_retry_usage_limit ans r) (has_turn_state ans r)
        (websocket_rejection e) noted (ap (λ (p : Relay × Bool). p.1) (sym whole) ∙ h) in
    (mild, subst (λ (p : Relay × Bool). IsDelivered ans usage p.0) (sym whole) delivered)

-- The relay goes on after a message of the upstream only if the downstream could prepare it; the event
-- in it, if there is one, is no rejection but that of a full count of connections; and last of all the
-- client took just that message: the prepared one, with the pooled usage put in if there is an event.
pub handle_upstream_goes_on :
    (ans : UpstreamAnswers) (frame : Frame) (r : Relay)
    → (handle_upstream ans (some frame) r).1 ≡ true
    → (prepared : Frame) × (ans.prepare frame ≡ some prepared)
      × IsAccepted (event_of ans prepared)
      × IsDelivered ans
          (message_for ans prepared (event_of ans prepared))
          (handle_upstream ans (some frame) r).0
unfolding handle_upstream
handle_upstream_goes_on ans frame r h = elim (Option-cases (ans.prepare frame)) [
  | inl lost ↦ absurd (let g : false ≡ true = rw lost at h in ground arith)
  | inr (prepared, e) ↦
      let whole = ap (handle_prepared ans r) e in
      let (mild, delivered) =
        handle_parsed-true ans prepared r (event_of ans prepared)
          (ap (λ (p : Relay × Bool). p.1) (sym whole) ∙ h) in
      let sent = message_for ans prepared (event_of ans prepared) in
      (
        prepared,
        e,
        mild,
        subst (λ (p : Relay × Bool). IsDelivered ans sent p.0) (sym whole) delivered,
      )
]
