-- ===== src/Stats/State.antt =====
-- `Stats` of internal/app/stats.go: its state, and the operations on accounts, sockets and events.
-- A count is an int64 and stands as its 64-bit pattern; the count of the relays that hold a thread is
-- a number. The store and the mutex are left out: an operation runs alone.
use codex_balancer.Prelude.{ℕ, ◌-◌, ltb, if◌then◌else◌, List, [], ◌∷◌, ◌++◌, length, String}
use codex_balancer.Prelude.Maps.{modify_or}
use codex_balancer.Account.Window.{Time}
use codex_balancer.Ledger.Credits.{RoutedCreditPoint, wrap_add, wrap_sub}
use codex_balancer.Pricing.Usage.{UsageCost, no_cost}
use codex_balancer.Pricing.Estimate.{PriceSnapshot}
use codex_balancer.Stats.Rolling.{RollingCounter, no_events, add}
use codex_balancer.Stats.Months.{Calendar, calendar_month, MonthUsage, new_month_usage}
use codex_balancer.Stats.Thread.{ThreadStats}

pub record AccountStats : Type 0 where
  pub turns : ℕ
  pub limited : RollingCounter
  pub ws_open : ℕ
  pub activity : RollingCounter
  pub routed_credits : List RoutedCreditPoint
  pub monthly_cost : UsageCost

abbrev pub new_account : AccountStats
new_account = record {
  turns = 0;
  limited = no_events;
  ws_open = 0;
  activity = no_events;
  routed_credits = [];
  monthly_cost = no_cost;
}

pub record Event : Type 0 where
  pub at : Time
  pub kind : String
  pub account : String
  pub detail : String
  pub private_detail : String

pub record Stats : Type 0 where
  pub prices : PriceSnapshot
  pub started : Time
  pub turns : ℕ
  pub failures : ℕ
  pub limited : ℕ
  pub ttfb_sum : ℕ
  pub ttfb_n : ℕ
  pub ws_open : ℕ
  pub month : MonthUsage
  pub last_month : MonthUsage
  pub accounts : List (String × AccountStats)
  pub threads : List (String × ThreadStats)
  pub live_threads : List (String × ℕ)
  pub events : List Event

unfoldable pub new_stats_with_prices : ⦃calendar : Calendar⦄ → Time → PriceSnapshot → Stats
unfolding calendar_month
new_stats_with_prices now prices = record {
  prices = prices;
  started = now;
  turns = 0;
  failures = 0;
  limited = 0;
  ttfb_sum = 0;
  ttfb_n = 0;
  ws_open = 0;
  month = new_month_usage (calendar_month now);
  last_month = new_month_usage (calendar_month now - 1);
  accounts = [];
  threads = [];
  live_threads = [];
  events = [];
}

-- What `s.account(id)` points to is changed; a missing account is made first.
unfoldable pub at_account : String → (AccountStats → AccountStats) → Stats → Stats
unfolding modify_or
at_account id f s = record s { accounts = modify_or new_account id f s.accounts }

abbrev pub event_log : ℕ
event_log = 200

abbrev pub drop_events : ℕ → List Event → List Event
drop_events n [] = []
drop_events n (e ∷ events) =
    let rest = drop_events (n - 1) events in if ltb 0 n then rest else e ∷ events

-- `mask` replaces the emails of a text by `maskEmail` of them.
unfoldable pub append_event : (String → String) → Event → Stats → Stats
append_event mask event s =
    let masked = record event { detail = mask event.detail; private_detail = event.detail } in
    let events = s.events ++ masked ∷ [] in
    record s {
      events =
          if ltb event_log (length events)
          then drop_events (length events - event_log) events
          else events;
    }

abbrev pub event_of : Time → String → String → String → Event
event_of at kind account detail = record {
  at = at;
  kind = kind;
  account = account;
  detail = detail;
  private_detail = "";
}

unfoldable pub note : (String → String) → Time → String → String → String → Stats → Stats
unfolding append_event
note mask now kind account detail s = append_event mask (event_of now kind account detail) s

abbrev pub limit_account : Time → AccountStats → AccountStats
limit_account now a = record a { limited = add a.limited now }

abbrev pub open_socket : AccountStats → AccountStats
open_socket a = record a { ws_open = wrap_add a.ws_open 1 }

abbrev pub close_socket : AccountStats → AccountStats
close_socket a = record a { ws_open = wrap_sub a.ws_open 1 }

unfoldable pub apply_rate_limited : Time → String → Stats → Stats
unfolding at_account add
apply_rate_limited now account s =
    at_account account (limit_account now) (record s { limited = wrap_add s.limited 1 })

unfoldable pub rate_limited : (String → String) → Time → String → Stats → Stats
unfolding append_event apply_rate_limited
rate_limited mask now account s =
    append_event mask (event_of now "rate limited" account "") (apply_rate_limited now account s)

unfoldable pub failed_over : (String → String) → Time → String → String → Stats → Stats
unfolding append_event
failed_over mask now account reason s =
    append_event mask (event_of now "failover" account reason)
      (record s { failures = wrap_add s.failures 1 })

unfoldable pub websocket_opened : String → Stats → Stats
unfolding at_account
websocket_opened account s =
    at_account account open_socket (record s { ws_open = wrap_add s.ws_open 1 })

unfoldable pub websocket_closed : String → Stats → Stats
unfolding at_account
websocket_closed account s =
    at_account account close_socket (record s { ws_open = wrap_sub s.ws_open 1 })
