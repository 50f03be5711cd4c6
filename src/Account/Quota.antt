-- ===== src/Account/Quota.antt =====
-- Credits, spend control and banked quota resets: internal/app/usage.go.
use codex_balancer.Prelude.{
  ℕ, ◌+◌, ◌*◌, ltb, if◌then◌else◌, Bool, true, false, not, ◌&&◌, Option, none, some, List, String,
  str_eq, Float64, float_of, float_lt, is_inf, scan,
}
use codex_balancer.Account.Window.{Time, after, before, hour}

-- `balance` is what `strconv.ParseFloat` makes of the trimmed text, `none` on an error.
pub record CreditsPayload : Type 0 where
  pub has_credits : Bool
  pub unlimited : Bool
  pub overage_limit_reached : Bool
  pub balance : Option Float64

abbrev positive_balance : Option Float64 → Bool
positive_balance none = false
positive_balance (some b) = float_lt (float_of 0) b && not (is_inf b)

unfoldable pub spendable : Option CreditsPayload → Bool
spendable none = false
spendable (some c) =
    if c.overage_limit_reached
    then false
    else if c.unlimited
    then true
    else if not c.has_credits
    then false
    else positive_balance c.balance

-- The display fields of `individual_limit` are left out.
pub record SpendControl : Type 0 where
  pub reached : Bool

unfoldable pub spend_limit_reached : Option SpendControl → Bool
spend_limit_reached none = false
spend_limit_reached (some control) = control.reached

pub record ResetCredit : Type 0 where
  pub id : String
  pub reset_type : String
  pub status : String
  pub expires_at : Option Time

unfoldable pub available : ResetCredit → Bool
available c = str_eq c.reset_type "codex_rate_limits" && str_eq c.status "available"

abbrev pub expired_at : Time → Option Time → Bool
expired_at now none = false
expired_at now (some t) = not (after t now)

abbrev pub outside_lead : ℕ → Time → Option Time → Bool
outside_lead lead deadline none = ltb 0 lead
outside_lead lead deadline (some t) = ltb 0 lead && after t deadline

-- An undated deadline comes last.
abbrev pub expires_before : Option Time → Option Time → Bool
expires_before none other = false
expires_before (some t) none = true
expires_before (some t) (some u) = before t u

-- The three `continue`s of `nextResetCredit`.
unfoldable pub usable : Time → ℕ → ResetCredit → Bool
usable now lead c =
    if not (available c)
    then false
    else if expired_at now c.expires_at
    then false
    else not (outside_lead lead (now + lead) c.expires_at)

-- `resetCreditExpiresBefore`.
abbrev pub reset_credit_expires_before : ResetCredit → ResetCredit → Bool
reset_credit_expires_before c other = expires_before c.expires_at other.expires_at

unfoldable pub next_reset_credit : List ResetCredit → Time → ℕ → Option ResetCredit
next_reset_credit credits now lead = scan reset_credit_expires_before (usable now lead) none credits

abbrev pub reset_priority_lead : ℕ
reset_priority_lead = 24 * hour

unfoldable pub expiring_reset_credit : List ResetCredit → Time → Option ResetCredit
expiring_reset_credit credits now = next_reset_credit credits now reset_priority_lead
