-- ===== src/Examples/Statistics.antt =====
-- The theorems on the statistics, at a calendar of months of thirty days.
use codex_balancer.Prelude.{
  ℕ, ◌+◌, ◌-◌, ◌*◌, ◌/◌, ◌%◌, ◌≡◌, ◌⊎◌, ◌≤◌, ◌<◌, refl, ltb, true, Option, none, some, List, [],
  ◌∷◌, String, str_eq, arith, pos, length,
}
use codex_balancer.Prelude.Maps.{lookup}
use codex_balancer.Account.Window.{Time, hour, before}
use codex_balancer.Pricing.Usage.{no_usage}
use codex_balancer.Pricing.Estimate.{PriceSnapshot, new_price_snapshot}
use codex_balancer.Stats.Rolling.{no_events, recent}
use codex_balancer.Stats.Recent.{within_day, add_all, recent-add_all}
use codex_balancer.Stats.Months.{Calendar, calendar_month}
use codex_balancer.Stats.Thread.{new_thread, transport_http, Routed, no_metadata, ThreadStats}
use codex_balancer.Stats.State.{Stats, new_stats_with_prices, websocket_opened}
use codex_balancer.Stats.Threads.{activate_thread, record_accepted, live_count}
use codex_balancer.Stats.Usage.{UsageEvent, reprice, replay}
use codex_balancer.Stats.Reach.{fresh, next, opens, accepts}
use codex_balancer.Stats.Invariant.{StatsInv}
use codex_balancer.Stats.Reached.{Reach-StatsInv}
use codex_balancer.Stats.AccountCosts.{monthly_cost}
use codex_balancer.Stats.Repriced.{reprice-replay}
use codex_balancer.Stats.Kept.{Kept}
use codex_balancer.Stats.Live.{Step-Kept}
use codex_balancer.Examples.Prices.{catalogue}

abbrev thirty_days : ℕ
thirty_days = 30 * 24 * hour

month_before_start :
    (t u : Time)
    → before u (t / 2592000000000000 * 2592000000000000)
      ≡ ltb
          ((u / 2592000000000000 / 12 + 1) * 12 + (u / 2592000000000000 % 12 + 1) - 1)
          ((t / 2592000000000000 / 12 + 1) * 12 + (t / 2592000000000000 % 12 + 1) - 1)
month_before_start t u = ground arith

instance abbrev by_thirty_days : Calendar
by_thirty_days = record {
  year = λ t. t / 2592000000000000 / 12 + 1;
  month = λ t. t / 2592000000000000 % 12 + 1;
  month_start = λ t. t / 2592000000000000 * 2592000000000000;
  year_pos = λ t. omega arith;
  month_range = λ t. (omega arith, omega arith);
  before_start = month_before_start;
}

abbrev today : Time
today = 10 * thirty_days + hour

abbrev unmasked : String → String
unmasked s = s

abbrev prices : PriceSnapshot
prices = new_price_snapshot catalogue today

recent-add_all_example :
    let (left, found) = recent (add_all (1 ∷ hour ∷ today ∷ []) no_events) (today + 1) in
    (found ≡ within_day (today + 1) (1 ∷ hour ∷ today ∷ []))
    × ((left.start < 1024) ⊎ (left.start < length found))
recent-add_all_example =
    recent-add_all (1 ∷ hour ∷ today ∷ []) (today + 1)
      (omega arith, (omega arith, (omega arith, tt)))
      (omega arith, (omega arith, (omega arith, tt)))

abbrev to_alice : Routed
to_alice = record {
  client_ip = "::1";
  account = "alice";
  model = "gpt-5";
  effort = "high";
  service_tier = [];
  metadata = no_metadata;
}

abbrev key_name : String
key_name = "key"

-- A turn of one thread on one account.
abbrev one_turn : Stats
one_turn =
    record_accepted today "thread" (record { name = key_name; suffix = "1234" }) transport_http
      to_alice true (new_stats_with_prices today prices)

Reach-StatsInv_example : StatsInv (websocket_opened "alice" one_turn)
Reach-StatsInv_example = Reach-StatsInv {mask = unmasked} (
    next
      (next (fresh today prices) (
        accepts today "thread" (record { name = key_name; suffix = "1234" }) transport_http to_alice
          true))
      (opens "alice"))

abbrev used : Time → UsageEvent
used at = record {
  at = at;
  account = "alice";
  model = "gpt-5";
  service_tier = [];
  usage = record no_usage { input_tokens = pos 1500; output_tokens = pos 10 };
}

abbrev two_events : List UsageEvent
two_events = used (today - 2 * hour) ∷ used today ∷ []

reprice-replay_example :
    let repriced = reprice today prices two_events one_turn in
    let replayed = replay two_events (new_stats_with_prices today prices) in
    (repriced.month ≡ replayed.month)
    × (repriced.last_month ≡ replayed.last_month)
    × (monthly_cost repriced "alice" ≡ monthly_cost replayed "alice")
unfolding calendar_month
reprice-replay_example =
    reprice-replay today prices two_events one_turn "alice"
      ((omega arith, omega arith), ((omega arith, omega arith), tt))

-- The thread of the turn, live.
abbrev held : Stats
held = activate_thread today "thread" one_turn

abbrev thread_of : Option ThreadStats → ThreadStats
thread_of none = new_thread 0
thread_of (some t) = t

abbrev history : ThreadStats
history = thread_of (lookup str_eq "thread" held.threads)

held_live : 1 ≤ live_count held "thread"
unfolding live_count activate_thread
held_live = omega arith

held_found : lookup str_eq "thread" held.threads ≡ some history
unfolding lookup activate_thread record_accepted new_stats_with_prices
held_found = refl

-- A turn of another thread, long after, prunes the histories that are not live.
Step-Kept_example :
    Kept "thread" history
      (record_accepted
        (today + hour)
        "other"
        (record { name = key_name; suffix = "1234" })
        transport_http
        to_alice
        true
        held).threads
Step-Kept_example =
    Step-Kept {mask = unmasked} "thread" history
      (accepts (today + hour) "other" (record { name = key_name; suffix = "1234" }) transport_http
        to_alice true)
      held_live held_found
