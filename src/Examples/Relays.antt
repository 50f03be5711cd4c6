-- ===== src/Examples/Relays.antt =====
-- The theorems on the relay, at one connection, a message before the first turn and a request.
use codex_balancer.Prelude.{
  ◌==◌, if◌then◌else◌, ℕ, ◌≡◌, ◌⊎◌, refl, true, false, Option, none, some, List, [], ◌∷◌,
}
use codex_balancer.Stats.Thread.{no_metadata}
use codex_balancer.Relay.State.{Frame, Envelope, Dial, Relay, new_relay, sent}
use codex_balancer.Relay.Rejection.{UpstreamEvent}
use codex_balancer.Relay.Downstream.{Answers, handle_downstream}
use codex_balancer.Relay.Upstream.{UpstreamAnswers, handle_upstream}
use codex_balancer.Relay.Flow.{IsSettled, IsWaiting}
use codex_balancer.Relay.Order.{begun, handled, answered, Runs-flow}
use codex_balancer.Relay.Verdict.{
  IsAccepted, IsDelivered, message_for, event_of, handle_upstream_goes_on,
}
use codex_balancer.Examples.Data.{now, first}
use codex_balancer.Examples.Registries.{picks_first}

abbrev frame : ℕ → Frame
frame n = record { is_text = true; content = n ∷ [] }

abbrev request : Envelope
request = record {
  kind = "response.create";
  model = "gpt-5";
  effort = "high";
  service_tier = [];
  generate = none;
  previous_response_id = "";
  turn_state = "";
  metadata = no_metadata;
}

abbrev parses : List ℕ → Option Envelope
parses [] = none
parses (n ∷ bytes) = if n == 0 then some request else none

abbrev dial : Dial
dial = record { account = "first"; object = first.account; moved = false; claimed = true }

abbrev answers : Answers
answers = record {
  parse = λ f. parses f.content;
  policy_changed = false;
  replace = λ f tier. some (f, tier);
  claim_active = true;
  candidate = first;
  picked = λ e. picks_first [];
  allowed = λ e id. true;
  dial = λ e claimed. none;
  transferred = λ d. true;
  socket_known = true;
  usable = λ d. true;
  policy_changed_late = false;
  write = λ f. sent;
}

abbrev queued : Relay
queued = (handle_downstream answers (some (frame 7)) (new_relay dial "thread")).0

abbrev requested : Relay
requested = (handle_downstream answers (some (frame 0)) queued).0

abbrev created : UpstreamEvent
created = record {
  kind = "response.created";
  status = 0;
  status_code = 0;
  error_type = "";
  error_code = "";
  response_error_type = "";
  response_error_code = "";
}

abbrev upstream_answers : UpstreamAnswers
upstream_answers = record {
  prepare = λ f. some f;
  parse = λ f. some created;
  usage_event = λ f e. f;
  header_turn_state = false;
  allowed = λ t id. true;
  candidates = [];
  now = now;
  accepts = true;
  delivers = λ f. true;
}

handle_upstream_goes_on_example :
    (prepared : Frame) × (upstream_answers.prepare (frame 3) ≡ some prepared)
    × IsAccepted (event_of upstream_answers prepared)
    × IsDelivered upstream_answers
        (message_for upstream_answers prepared (event_of upstream_answers prepared))
        (handle_upstream upstream_answers (some (frame 3)) requested).0
unfolding handle_upstream handle_downstream new_relay
handle_upstream_goes_on_example = handle_upstream_goes_on upstream_answers (frame 3) requested refl

-- The upstream creates the response, and the client sends one more request.
abbrev answered_relay : Relay
answered_relay = (handle_upstream upstream_answers (some (frame 3)) requested).0

abbrev again : Relay
again = (handle_downstream answers (some (frame 0)) answered_relay).0

abbrev three_frames : List Frame
three_frames = frame 7 ∷ frame 0 ∷ frame 0 ∷ []

Runs-flow_example : IsSettled again three_frames ⊎ IsWaiting again three_frames
unfolding handle_downstream handle_upstream new_relay
    codex_balancer.Routing.Candidate.weekly_exhausted codex_balancer.Account.Window.longest_window
    codex_balancer.Prelude.float_ge
Runs-flow_example = Runs-flow (
    handled answers (frame 0)
      (answered upstream_answers (frame 3)
        (handled answers (frame 0) (handled answers (frame 7) (begun dial "thread") refl) refl)
        refl)
      refl)
