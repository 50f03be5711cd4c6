-- ===== src/Stats/Months.antt =====
-- The usage of a month: `monthUsage` of internal/app/stats.go. A month is counted from year 0.
use codex_balancer.Prelude.{
  ℕ, ◌+◌, ◌-◌, ◌*◌, ltb, Bool, Option, none, some, List, [], ℤ, String, str_eq, ◌≡◌, ◌≤◌,
}
use codex_balancer.Prelude.Maps.{lookup, insert}
use codex_balancer.Account.Window.{Time, before}
use codex_balancer.Pricing.Usage.{ResponseUsage, no_usage, add_usage, UsageCost, no_cost, add_cost}

-- What `time.Date` and `Time.Date` give in the local zone: the year and the month of a time, and the
-- start of its month. Times of an earlier month, and only those, are before that start.
pub record Calendar : Type 0 where
  pub year : Time → ℕ
  pub month : Time → ℕ
  pub month_start : Time → Time
  pub year_pos : (t : Time) → 1 ≤ year t
  pub month_range : (t : Time) → (1 ≤ month t) × (month t ≤ 12)
  pub before_start :
      (t u : Time)
      → before u (month_start t) ≡ ltb (year u * 12 + month u - 1) (year t * 12 + month t - 1)

unfoldable pub calendar_month : ⦃calendar : Calendar⦄ → Time → ℕ
calendar_month ⦃calendar⦄ t = calendar.year t * 12 + calendar.month t - 1

abbrev pub Costs : Type 0
Costs = List (String × UsageCost)

abbrev cost_or : Option UsageCost → UsageCost
cost_or none = no_cost
cost_or (some cost) = cost

-- A missing key reads as the zero cost.
unfoldable pub cost_of : Costs → String → UsageCost
unfolding lookup
cost_of costs key = cost_or (lookup str_eq key costs)

unfoldable pub add_cost_at : Costs → String → ℤ × Bool → Costs
unfolding cost_of insert add_cost
add_cost_at costs key price = insert str_eq key (add_cost (cost_of costs key) price) costs

pub record MonthUsage : Type 0 where
  pub month : ℕ
  pub usage : ResponseUsage
  pub cost : UsageCost
  pub models : Costs

abbrev pub new_month_usage : ℕ → MonthUsage
new_month_usage month = record { month = month; usage = no_usage; cost = no_cost; models = [] }

unfoldable pub add_month : MonthUsage → String → ResponseUsage → ℤ × Bool → MonthUsage
unfolding add_usage add_cost add_cost_at
add_month m model usage price = record m {
  usage = add_usage m.usage usage;
  cost = add_cost m.cost price;
  models = add_cost_at m.models model price;
}
