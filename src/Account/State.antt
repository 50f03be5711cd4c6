-- ===== src/Account/State.antt =====
-- The account object and its methods: internal/app/account.go, usage.go, pool.go and
-- credit_routing.go. A method that mutates `*Account` returns the new record; its mutex makes it one
-- step. The single-flight field `inflight` is modelled apart.
use codex_balancer.Prelude.{
  ℕ, ◌+◌, ◌-◌, ◌*◌, ltb, ◌==◌, if◌then◌else◌, Bool, true, false, not, ◌&&◌, ◌||◌, Option, none,
  some, List, [], ◌∷◌, ℤ, pos, int_compare, is_eq, String, str_eq, Float64, float_of, float_max,
  float_ge,
}
use codex_balancer.Account.Window.{
  Time, minute, hour, is_zero, after, before, unix, Window, zero_window, known,
}
use codex_balancer.Account.Mode.{RoutingMode, normal, priority, paused, unknown, normalized}
use codex_balancer.Account.Quota.{CreditsPayload, SpendControl, spend_limit_reached, ResetCredit}

-- What `encoding/json`, `encoding/base64` and `crypto/sha256` compute: the claims in the middle
-- segment of a token, its expiry, and the digest of a token.
pub record AuthClaims : Type 0 where
  pub email : String
  pub account_id : String
  pub plan : String

pub record Tokens : Type 0 where
  pub decode_claims : String → AuthClaims
  pub decode_expiry : String → ℤ
  pub digest : String → String

pub record AccountState : Type 0 where
  pub id_token : String
  pub access_token : String
  pub refresh_token : String
  pub paused : Bool
  pub routing_mode : RoutingMode
  pub allow_credits : Bool
  pub last_refresh : Time
  pub reauth : String

pub record ResetCreditState : Type 0 where
  pub fetched_at : Time
  pub known : Bool
  pub count : ℤ
  pub details : List ResetCredit

pub record Account : Type 0 where
  pub state : AccountState
  pub rejected_access_token : String
  pub cooldown : Time
  pub plan_type : String
  pub primary : Window
  pub secondary : Window
  pub spent : Bool
  pub reset_credits : ResetCreditState
  pub spend_control : Option SpendControl
  pub credits : Option CreditsPayload
  pub credits_rejected : Bool
  pub usage_fetched_at : Time
  pub last_used : Time

abbrev pub zero_claims : AuthClaims
zero_claims = record { email = ""; account_id = ""; plan = "" }

-- `strings.Split(token, ".")`: the segment before the first dot, and the text after it.
segments : String → String × List String
segments String.[] = ("", [])
segments (String.◌∷◌ c s) =
    let (first, rest) = segments s in
    if str_eq (String.◌∷◌ c String.[]) "." then ("", first ∷ rest) else (String.◌∷◌ c first, rest)

payload_of : String × List String → Option String
payload_of (head, []) = none
payload_of (head, middle ∷ []) = none
payload_of (head, middle ∷ signature ∷ []) = some middle
payload_of (head, middle ∷ signature ∷ more ∷ rest) = none

-- `jwtClaims`, up to the segment that it decodes.
unfoldable pub jwt_payload : String → Option String
unfolding segments payload_of
jwt_payload token = payload_of (segments token)

module _ ⦃tokens : Tokens⦄ where
  abbrev claims_of : Option String → AuthClaims
  claims_of none = zero_claims
  claims_of (some payload) = tokens.decode_claims payload

  unfoldable pub claims_from_token : String → AuthClaims
  claims_from_token token = claims_of (jwt_payload token)

  abbrev expiry_of : Option String → ℤ
  expiry_of none = pos 0
  expiry_of (some payload) = tokens.decode_expiry payload

  unfoldable pub token_expiry : String → Time
  token_expiry token =
      let exp = expiry_of (jwt_payload token) in
      if is_eq (int_compare exp (pos 0)) then 0 else unix exp

  unfoldable pub id : Account → String
  id a = (claims_from_token a.state.id_token).account_id

  unfoldable pub plan : Account → String
  plan a =
      if not (str_eq a.plan_type "") then a.plan_type else (claims_from_token a.state.id_token).plan

abbrev pub token_refresh_lead : ℕ
token_refresh_lead = 5 * minute

abbrev pub token_refresh_fallback : ℕ
token_refresh_fallback = 8 * 24 * hour

unfoldable pub refresh_due : ⦃tokens : Tokens⦄ → Account → Time → Bool
refresh_due a now =
    let expiry = token_expiry a.state.access_token in
    if not (is_zero expiry)
    then not (after expiry (now + token_refresh_lead))
    else ltb token_refresh_fallback (now - a.state.last_refresh)

unfoldable pub effective_routing_mode : AccountState → RoutingMode
effective_routing_mode s = if s.paused then paused else normalized s.routing_mode

-- The larger of the two percentages.
unfoldable pub pressure : Account → Float64
pressure a = float_max a.primary.used_percent a.secondary.used_percent

-- It returns whether the flag changed.
unfoldable pub mark_spent : Account → Account × Bool
mark_spent a = (record a { spent = true }, not a.spent)

abbrev stale_at : Time → Window → Bool
stale_at t w = known w && not (after w.seen_at t)

unfoldable pub restore_from_usage_after : Account → Time → Account × Bool
unfolding pressure
restore_from_usage_after a t =
    if float_ge (pressure a) (float_of 100) || spend_limit_reached a.spend_control
    then (a, false)
    else if stale_at t a.primary || stale_at t a.secondary
    then (a, false)
    else if known a.primary || known a.secondary
    then (record a { spent = false }, true)
    else (a, false)

unfoldable pub account_from_state : AccountState → Account
account_from_state s = record {
  state = record s { routing_mode = normalized s.routing_mode };
  rejected_access_token = "";
  cooldown = 0;
  plan_type = "";
  primary = zero_window;
  secondary = zero_window;
  spent = false;
  reset_credits = record { fetched_at = 0; known = false; count = pos 0; details = [] };
  spend_control = none;
  credits = none;
  credits_rejected = false;
  usage_fetched_at = 0;
  last_used = 0;
}

abbrev pub mode_eq : RoutingMode → RoutingMode → Bool
mode_eq normal normal = true
mode_eq priority priority = true
mode_eq paused paused = true
mode_eq (unknown s) (unknown t) = str_eq s t
mode_eq _ _ = false

abbrev pub bool_eq : Bool → Bool → Bool
bool_eq true b = b
bool_eq false b = not b

-- `a.accountState == before`.
unfoldable pub state_eq : AccountState → AccountState → Bool
state_eq a b =
    str_eq a.id_token b.id_token
    && str_eq a.access_token b.access_token
    && str_eq a.refresh_token b.refresh_token
    && bool_eq a.paused b.paused
    && mode_eq a.routing_mode b.routing_mode
    && bool_eq a.allow_credits b.allow_credits
    && a.last_refresh == b.last_refresh
    && str_eq a.reauth b.reauth

-- The credentials of the stored state, taken over unless they are older.
unfoldable pub apply_credentials : Account → AccountState → Account
apply_credentials a next =
    let access_token_changed = not (str_eq a.state.access_token next.access_token) in
    let credentials_changed =
      not (str_eq a.state.id_token next.id_token)
      || access_token_changed
      || not (str_eq a.state.refresh_token next.refresh_token) in
    if before next.last_refresh a.state.last_refresh then a else record a {
      state = record {
        id_token = next.id_token;
        access_token = next.access_token;
        refresh_token = next.refresh_token;
        paused = a.state.paused;
        routing_mode = a.state.routing_mode;
        allow_credits = a.state.allow_credits;
        last_refresh = next.last_refresh;
        reauth = if credentials_changed then "" else next.reauth;
      };
      rejected_access_token = if access_token_changed then "" else a.rejected_access_token;
    }

unfoldable pub apply_persisted : Account → AccountState → Account × Bool
unfolding apply_credentials state_eq
apply_persisted a next =
    let b = apply_credentials a next in
    let c = record b {
      state = record {
        id_token = b.state.id_token;
        access_token = b.state.access_token;
        refresh_token = b.state.refresh_token;
        paused = next.paused;
        routing_mode = normalized next.routing_mode;
        allow_credits = next.allow_credits;
        last_refresh = b.state.last_refresh;
        reauth = b.state.reauth;
      };
    } in
    (c, not (state_eq c.state a.state))

unfoldable pub mark_rejected_access_token : ⦃tokens : Tokens⦄ → Account → String → Account × Bool
mark_rejected_access_token ⦃tokens⦄ a token =
    if not (str_eq (tokens.digest a.state.access_token) token)
      || str_eq a.rejected_access_token token
    then (a, false)
    else (record a { rejected_access_token = token }, true)

unfoldable pub clear_rejected_access_token : Account → String → Account
clear_rejected_access_token a token =
    if str_eq a.rejected_access_token token then record a { rejected_access_token = "" } else a
