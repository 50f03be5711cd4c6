-- ===== src/Relay/Rejection.antt =====
-- The rejections of a request by the upstream: internal/app/websocket.go.
use codex_balancer.Prelude.{ℕ, ◌==◌, if◌then◌else◌, Bool, not, ◌||◌, String, str_eq}

-- The fields of `websocketEnvelope` that the relay reads of an upstream event.
pub record UpstreamEvent : Type 0 where
  pub kind : String
  pub status : ℕ
  pub status_code : ℕ
  pub error_type : String
  pub error_code : String
  pub response_error_type : String
  pub response_error_code : String

pub data Rejection : Type 0 where
  rejection_none unauthorized rate_limited usage_limit connection_limit model_capacity : Rejection

unfoldable pub websocket_status : UpstreamEvent → ℕ
websocket_status e = if not (e.status == 0) then e.status else e.status_code

unfoldable pub websocket_error_is : UpstreamEvent → String → Bool
websocket_error_is e code =
    str_eq e.error_type code
    || str_eq e.error_code code
    || str_eq e.response_error_type code
    || str_eq e.response_error_code code

unfoldable pub websocket_rejection : UpstreamEvent → Rejection
unfolding websocket_status websocket_error_is
websocket_rejection e =
    if websocket_error_is e "websocket_connection_limit_reached"
    then connection_limit
    else if websocket_status e == 401
    then unauthorized
    else if websocket_error_is e "usage_limit_reached"
        || websocket_error_is e "credit_balance_exhausted"
    then usage_limit
    else if websocket_error_is e "server_is_overloaded" || websocket_error_is e "slow_down"
    then model_capacity
    else if websocket_status e == 429 || websocket_error_is e "rate_limit_exceeded"
    then rate_limited
    else rejection_none
