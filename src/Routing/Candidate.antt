-- ===== src/Routing/Candidate.antt =====
-- The snapshot of an account that routing works on, and its tests: internal/app/pool.go and
-- credit_routing.go.
use codex_balancer.Prelude.{
  ℕ, ◌*◌, if◌then◌else◌, Bool, true, false, not, ◌&&◌, ◌||◌, Option, none, some, [], ◌∷◌, ℤ, pos,
  int_compare, is_lt, String, str_eq, Float64, float_of, float_ge, is_inf,
}
use codex_balancer.Account.Window.{
  Time, after, before, Window, known, longest_window, remaining_percent,
}
use codex_balancer.Account.Mode.{
  RoutingMode, is_priority, routable_plan, AccountStatus, live, prioritized, on_credits, checking,
  cooling, needs_reauth, not_routed,
}
use codex_balancer.Account.Quota.{
  CreditsPayload, spendable, SpendControl, spend_limit_reached, ResetCredit, expiring_reset_credit,
}
use codex_balancer.Account.State.{
  ResetCreditState, Tokens, Account, id, plan, pressure, effective_routing_mode,
}

-- `account` is the address of the account object.
pub record Candidate : Type 0 where
  pub account : ℕ
  pub id : String
  pub plan : String
  pub paused : Bool
  pub reauth : String
  pub cooldown : Time
  pub primary : Window
  pub secondary : Window
  pub reset_credits : ResetCreditState
  pub spend_control : Option SpendControl
  pub credits : Option CreditsPayload
  pub credits_rejected : Bool
  pub spent : Bool
  pub pressure : Float64
  pub last_used : Time
  pub mode : RoutingMode
  pub allow_credits : Bool

unfoldable pub routing_candidate : ⦃tokens : Tokens⦄ → ℕ → Account → Candidate
unfolding pressure effective_routing_mode
routing_candidate address a = record {
  account = address;
  id = id a;
  plan = plan a;
  paused = a.state.paused;
  reauth = a.state.reauth;
  cooldown = a.cooldown;
  primary = a.primary;
  secondary = a.secondary;
  reset_credits = a.reset_credits;
  spend_control = a.spend_control;
  credits = a.credits;
  credits_rejected = a.credits_rejected;
  spent = a.spent || spend_limit_reached a.spend_control;
  pressure = pressure a;
  last_used = a.last_used;
  mode = effective_routing_mode a.state;
  allow_credits = a.state.allow_credits;
}

-- The longer of the two windows.
abbrev pub weekly : Candidate → Window
weekly c = longest_window (c.primary ∷ c.secondary ∷ [])

abbrev pub week_minutes : ℤ
week_minutes = pos (7 * 24 * 60)

unfoldable pub weekly_exhausted : Candidate → Bool
weekly_exhausted c =
    let w = weekly c in
    known w
    && not (is_lt (int_compare w.minutes week_minutes))
    && float_ge w.used_percent (float_of 100)
    && not (is_inf w.used_percent)

unfoldable pub included_routing : Candidate → Bool
included_routing c = routable_plan c.plan

unfoldable pub routing_enabled : Candidate → Bool
unfolding included_routing
routing_enabled c = included_routing c || c.allow_credits

unfoldable pub quota_known : Candidate → Bool
quota_known c = known c.primary || known c.secondary

-- `c.reauth == ""`.
abbrev pub signed_in : Candidate → Bool
signed_in c = str_eq c.reauth ""

unfoldable pub credit_available : Candidate → Time → Bool
credit_available c now =
    c.allow_credits
    && not c.paused
    && signed_in c
    && after now c.cooldown
    && not (spend_limit_reached c.spend_control)
    && not c.credits_rejected
    && (weekly_exhausted c || not (included_routing c))
    && spendable c.credits

unfoldable pub available : Candidate → Time → Bool
available c now =
    included_routing c
    && not c.paused
    && signed_in c
    && not c.spent
    && not (weekly_exhausted c)
    && quota_known c
    && after now c.cooldown

abbrev expiry_of : Option ResetCredit → Option Time
expiry_of none = none
expiry_of (some credit) = credit.expires_at

abbrev priority_of : Option Float64 → Option Time → Option (Time × Float64)
priority_of none expires = none
priority_of (some remaining) none = none
priority_of (some remaining) (some t) = some (t, remaining)

-- `routingPriority`: the deadline of the reset that expires within the lead, and what remains.
unfoldable pub routing_priority : Candidate → Time → Option (Time × Float64)
routing_priority c now =
    priority_of (remaining_percent (weekly c))
      (expiry_of (expiring_reset_credit c.reset_credits.details now))

unfoldable pub account_status_at : Bool → String → Time → Bool → Bool → Time → AccountStatus
account_status_at paused reauth cooldown spent known now =
    if paused
    then AccountStatus.paused
    else if not (str_eq reauth "")
    then needs_reauth
    else if spent || before now cooldown
    then cooling
    else if not known
    then checking
    else live

abbrev live_status : AccountStatus → Bool → Option (Time × Float64) → AccountStatus
live_status live true priority = prioritized
live_status live false none = live
live_status live false (some p) = prioritized
live_status s _ _ = s

unfoldable pub status : Candidate → Time → AccountStatus
unfolding account_status_at
status c now =
    if credit_available c now
    then on_credits
    else if not c.paused
        && signed_in c
        && not (included_routing c)
        && (not c.allow_credits || after now c.cooldown)
    then not_routed
    else live_status
        (account_status_at c.paused c.reauth c.cooldown (c.spent || weekly_exhausted c)
          (quota_known c) now)
        (is_priority c.mode) (routing_priority c now)
