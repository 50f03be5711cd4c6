-- ===== src/Relay/State.antt =====
-- The state of `responsesWebSocketRelay` of internal/app/websocket_relay.go, what it receives, and the
-- calls that it makes on the connections and the server, as a list with the newest first.
use codex_balancer.Prelude.{
  ℕ, ◌*◌, if◌then◌else◌, Bool, true, false, ◌&&◌, Option, List, [], ◌∷◌, String, codes, trim_space,
  codes_eq,
}
use codex_balancer.Pricing.Tier.{Tier}
use codex_balancer.Stats.Thread.{TurnMetadata}

-- A websocket message without an error: whether it is a text, and its bytes.
pub record Frame : Type 0 where
  pub is_text : Bool
  pub content : List ℕ

-- The fields of `websocketEnvelope` that the relay reads of a client's message.
pub record Envelope : Type 0 where
  pub kind : String
  pub model : String
  pub effort : String
  pub service_tier : Tier
  pub generate : Option Bool
  pub previous_response_id : String
  pub turn_state : String
  pub metadata : TurnMetadata

abbrev pub is_blank : String → Bool
is_blank s = codes_eq (trim_space (codes s)) []

unfoldable pub websocket_request_portable : Envelope → Bool
unfolding trim_space codes_eq
websocket_request_portable event = is_blank event.previous_response_id && is_blank event.turn_state

pub record Turn : Type 0 where
  pub model : String
  pub effort : String
  pub service_tier : Tier
  pub metadata : TurnMetadata
  pub counted : Bool
  pub created : Bool
  pub turn_state : String
  pub stats_thread : String

pub data Effect : Type 0 where
  wrote : String → Frame → Effect
  write_failed : String → Effect
  conn_closed : String → Effect
  claim_released : String → Effect
  opened : String → Effect
  shut : String → Effect
  socket_moved : String → String → Effect
  socket_registered : String → Effect
  owner_preserved : String → Effect
  downstream_closed : String → Effect
  turn_refused : String → Effect
  setup_failed : Effect
  upstream_failed : Effect
  rejected : String → Effect
  forwarded : Frame → Effect
  account_rejected : String → Effect
  token_rejected : String → Effect
  turn_created : String → Bool → Effect
  turn_finished : String → Effect

-- A connection to an account, as dialed: `object` is the address of the account object, `moved` is whether the route had another owner, `claimed`
-- whether it has a claim of its own.
pub record Dial : Type 0 where
  pub account : String
  pub object : ℕ
  pub moved : Bool
  pub claimed : Bool

pub record Relay : Type 0 where
  pub current : Dial
  pub pending : List Frame
  pub pending_bytes : ℕ
  pub pinned : Bool
  pub turns : List Turn
  pub thread : String
  pub effects : List Effect

abbrev pub max_websocket_message : ℕ
max_websocket_message = 256 * 1048576

abbrev pub emit : Effect → Relay → Relay
emit e r = record r { effects = e ∷ r.effects }

abbrev pub close_downstream : String → Relay → Relay
close_downstream reason r = emit (downstream_closed reason) r

-- `preserveResponseOwner`, up to the keys that it stores: it takes the claim, if there is one.
unfoldable pub preserve_owner : Relay → Relay
preserve_owner r =
    if r.current.claimed
    then record (emit (owner_preserved r.current.account) r) {
      current = record r.current { claimed = false };
    }
    else r

-- What a write to the upstream comes to.
pub data Write : Type 0 where
  unroutable : Write
  failed : Write
  sent : Write

unfoldable pub write_result : Write → Frame → Relay → Relay × Bool
unfolding preserve_owner
write_result unroutable frame r =
    (close_downstream "account became unavailable before transmission" (preserve_owner r), false)
write_result failed frame r = (emit (write_failed r.current.account) r, false)
write_result sent frame r = (emit (wrote r.current.account frame) r, true)

-- `write` is what becomes of each frame.
unfoldable pub write_upstream : (Frame → Write) → Frame → Relay → Relay × Bool
unfolding write_result
write_upstream write frame r = write_result (write frame) frame r

unfoldable pub restart_for_fast_mode : Relay → Relay
unfolding preserve_owner
restart_for_fast_mode r = close_downstream "fast mode changed; reconnect" (preserve_owner r)

-- A new relay, as `run` registers its connection.
unfoldable pub new_relay : Dial → String → Relay
new_relay initial thread = record {
  current = initial;
  pending = [];
  pending_bytes = 0;
  pinned = false;
  turns = [];
  thread = thread;
  effects = opened initial.account ∷ socket_registered initial.account ∷ [];
}
