-- ===== src/Stats/Usage.antt =====
-- The usage of responses in `Stats` of internal/app/stats.go: `applyUsageAt`, the change of the month
-- and `reprice`. The usage events are those that the store gives.
use codex_balancer.Prelude.{
  ℕ, ◌-◌, ◌==◌, ltb, if◌then◌else◌, Bool, List, [], ◌∷◌, ℤ, String, str_eq, to_bits,
}
use codex_balancer.Prelude.Maps.{modify, modify_or}
use codex_balancer.Account.Window.{Time, before}
use codex_balancer.Ledger.Credits.{add_routed_credits}
use codex_balancer.Pricing.Usage.{ResponseUsage, UsageCost, no_cost, add_cost}
use codex_balancer.Pricing.Tier.{Tier}
use codex_balancer.Pricing.Estimate.{PriceSnapshot, estimate}
use codex_balancer.Stats.Credits.{estimate_codex_credits}
use codex_balancer.Stats.Months.{
  Calendar, calendar_month, Costs, add_cost_at, MonthUsage, new_month_usage, add_month,
}
use codex_balancer.Stats.Thread.{use_thread}
use codex_balancer.Stats.State.{AccountStats, new_account, Stats, at_account}

pub record UsageEvent : Type 0 where
  pub at : Time
  pub account : String
  pub model : String
  pub service_tier : Tier
  pub usage : ResponseUsage

abbrev pub set_cost : UsageCost → AccountStats → AccountStats
set_cost cost a = record a { monthly_cost = cost }

unfoldable pub clear_costs : List (String × AccountStats) → List (String × AccountStats)
clear_costs [] = []
clear_costs ((id, a) ∷ accounts) = (id, set_cost no_cost a) ∷ clear_costs accounts

unfoldable pub sync_usage_month : ℕ → Stats → Stats
unfolding clear_costs
sync_usage_month month s = if month == s.month.month then s else record s {
  last_month = if s.month.month == month - 1 then s.month else new_month_usage (month - 1);
  month = new_month_usage month;
  accounts = clear_costs s.accounts;
}

abbrev pub price_account : ℤ × Bool → AccountStats → AccountStats
price_account price a = set_cost (add_cost a.monthly_cost price) a

-- The end of `applyUsageAt`, from the month on.
unfoldable pub use_month : ℕ → UsageEvent → ℤ × Bool → Stats → Stats
unfolding add_month sync_usage_month at_account add_cost
use_month month e price s =
    let synced = sync_usage_month month s in
    let counted = record synced { month = add_month synced.month e.model e.usage price } in
    if month == s.last_month.month
    then record s { last_month = add_month s.last_month e.model e.usage price }
    else if ltb month s.month.month
    then s
    else if str_eq e.account ""
    then counted
    else at_account e.account (price_account price) counted

abbrev pub credit_account : Time → ℤ × Bool → AccountStats → AccountStats
credit_account at (credits, known) a = record a {
  routed_credits = add_routed_credits a.routed_credits at (to_bits credits) known;
}

unfoldable pub add_credits : UsageEvent → Stats → Stats
unfolding estimate_codex_credits at_account add_routed_credits
add_credits e s =
    let price = estimate_codex_credits e.model e.service_tier e.usage in
    if str_eq e.account "" then s else at_account e.account (credit_account e.at price) s

abbrev pub price_now : UsageEvent → Stats → ℤ × Bool
price_now e s = estimate s.prices e.model e.service_tier e.usage

-- The use of the credits, and of the thread if there is one.
unfoldable pub use_credits : UsageEvent → String → String → Stats → Stats
unfolding estimate add_credits modify use_thread
use_credits e thread effort s =
    let credited = add_credits e s in
    record credited {
      threads =
          modify thread (use_thread e.at e.account e.model effort e.usage (price_now e s))
            credited.threads;
    }

unfoldable pub apply_usage_at : ⦃calendar : Calendar⦄ → UsageEvent → String → String → Stats → Stats
unfolding estimate use_credits calendar_month use_month
apply_usage_at e thread effort s =
    use_month (calendar_month e.at) e (price_now e s) (use_credits e thread effort s)

-- The loop of `newPersistentStats` over the events of the store.
unfoldable pub replay : ⦃calendar : Calendar⦄ → List UsageEvent → Stats → Stats
unfolding apply_usage_at
replay [] s = s
replay (e ∷ events) s = replay events (apply_usage_at e "" "" s)

-- The month, the one before it, and the costs of the accounts, as the loop of `reprice` adds to them.
pub record Priced : Type 0 where
  pub month : MonthUsage
  pub last_month : MonthUsage
  pub account_costs : Costs

unfoldable pub price_event :
    ⦃calendar : Calendar⦄ → PriceSnapshot → Time → UsageEvent → Priced → Priced
unfolding estimate add_month add_cost_at
price_event prices month_start e p =
    let price = estimate prices e.model e.service_tier e.usage in
    if before e.at month_start
    then record p { last_month = add_month p.last_month e.model e.usage price }
    else record p {
      month = add_month p.month e.model e.usage price;
      account_costs =
          if str_eq e.account ""
          then p.account_costs
          else add_cost_at p.account_costs e.account price;
    }

unfoldable pub price_events :
    ⦃calendar : Calendar⦄ → PriceSnapshot → Time → List UsageEvent → Priced → Priced
unfolding price_event
price_events prices month_start [] p = p
price_events prices month_start (e ∷ events) p =
    price_events prices month_start events (price_event prices month_start e p)

-- The loop that writes the costs into the accounts.
unfoldable pub write_costs : Costs → List (String × AccountStats) → List (String × AccountStats)
unfolding modify_or
write_costs [] accounts = accounts
write_costs ((id, cost) ∷ costs) accounts =
    write_costs costs (modify_or new_account id (set_cost cost) accounts)

abbrev pub no_priced : ℕ → Priced
no_priced month = record {
  month = new_month_usage month;
  last_month = new_month_usage (month - 1);
  account_costs = [];
}

unfoldable pub reprice :
    ⦃calendar : Calendar⦄ → Time → PriceSnapshot → List UsageEvent → Stats → Stats
unfolding calendar_month price_events clear_costs write_costs
reprice ⦃calendar⦄ now prices events s =
    let priced =
      price_events prices (calendar.month_start now) events (no_priced (calendar_month now)) in
    record s {
      month = priced.month;
      last_month = priced.last_month;
      accounts = write_costs priced.account_costs (clear_costs s.accounts);
      prices = prices;
    }
