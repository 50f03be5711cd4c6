-- ===== src/Examples/Data.antt =====
-- Accounts and candidates that the examples share.
use codex_balancer.Prelude.{ℕ, ◌*◌, false, none, [], ◌∷◌, pos, String, List, finite}
use codex_balancer.Account.Window.{Time, hour, Window, zero_window}
use codex_balancer.Account.Mode.{normal}
use codex_balancer.Account.State.{Account, AccountState}
use codex_balancer.Routing.Candidate.{Candidate}

abbrev pub now : Time
now = 1000 * hour

abbrev pub stored : AccountState
stored = record {
  id_token = "i";
  access_token = "a";
  refresh_token = "r";
  paused = false;
  routing_mode = normal;
  allow_credits = false;
  last_refresh = 900 * hour;
  reauth = "";
}

abbrev pub account : Account
account = record {
  state = stored;
  rejected_access_token = "";
  cooldown = 0;
  plan_type = "";
  primary = zero_window;
  secondary = zero_window;
  spent = false;
  reset_credits = record { fetched_at = 0; known = false; count = pos 0; details = [] };
  spend_control = none;
  credits = none;
  credits_rejected = false;
  usage_fetched_at = 0;
  last_used = 0;
}

abbrev pub week : Window
week = record {
  used_percent = finite (pos 20000000);
  minutes = pos 10080;
  resets_at = 1100 * hour;
  seen_at = 990 * hour;
}

abbrev pub candidate : String → ℕ → ℕ → Candidate
candidate id used last_used = record {
  account = 1;
  id = id;
  plan = "pro";
  paused = false;
  reauth = "";
  cooldown = 0;
  primary = zero_window;
  secondary = week;
  reset_credits = account.reset_credits;
  spend_control = none;
  credits = none;
  credits_rejected = false;
  spent = false;
  pressure = finite (pos used);
  last_used = last_used;
  mode = normal;
  allow_credits = false;
}

abbrev pub first : Candidate
first = candidate "first" 20000000 5

abbrev pub second : Candidate
second = candidate "second" 20500000 3

abbrev pub cooling : Candidate
cooling = record first { cooldown = 1001 * hour }

abbrev pub pair : List Candidate
pair = first ∷ second ∷ []
