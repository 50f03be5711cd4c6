-- ===== src/Stats/Agreement.antt =====
-- The steps of `applyUsageAt` and of `reprice` of internal/app/stats.go, taken together.
use codex_balancer.Prelude.{
  ℕ, ◌+◌, ◌-◌, ◌==◌, ◌≤◌, ◌≡◌, refl, ap, ◌∙◌, ltb, if◌then◌else◌, Bool, true, false, Bool-cases,
  inl, inr, String, str_eq, arith, ℤ,
}
use codex_balancer.Prelude.Maps.{modify_or, lookup-insert_key, IsKeyed, insert-IsKeyed}
use codex_balancer.Account.Window.{Time, before}
use codex_balancer.Pricing.Usage.{add_cost}
use codex_balancer.Pricing.Estimate.{PriceSnapshot}
use codex_balancer.Stats.Months.{Calendar, calendar_month, Costs, cost_of, add_cost_at, add_month}
use codex_balancer.Stats.Credits.{estimate_codex_credits}
use codex_balancer.Stats.State.{new_account, Stats, at_account}
use codex_balancer.Stats.Usage.{
  UsageEvent, use_month, add_credits, sync_usage_month, Priced, use_credits, price_account,
  credit_account,
}
use codex_balancer.Stats.AccountCosts.{cost_at, cost_at-modify_or_same, cost_at-price}

-- The statistics and the accumulated prices agree, in a given month.
abbrev pub Agrees : PriceSnapshot → ℕ → Stats → Priced → Type 0
Agrees prices month s p =
    (s.prices ≡ prices)
    × (s.month ≡ p.month)
    × (s.last_month ≡ p.last_month)
    × (s.month.month ≡ month)
    × (s.last_month.month ≡ month - 1)
    × ((id : String) → cost_at id s.accounts ≡ cost_of p.account_costs id)
    × IsKeyed p.account_costs

pub use_credits-Agrees :
    (e : UsageEvent) (prices : PriceSnapshot) (month : ℕ) (s : Stats) (p : Priced)
    → Agrees prices month s p
    → Agrees prices month (use_credits e "" "" s) p
unfolding use_credits add_credits at_account
use_credits-Agrees e prices month s p (h1, h2, h3, h4, h5, costs, keyed) =
    elim (Bool-cases (str_eq e.account "")) [
      | inl anonymous ↦ rw anonymous (h1, h2, h3, h4, h5, costs, keyed)
      | inr known ↦ rw known (
        h1,
        h2,
        h3,
        h4,
        h5,
        λ id.
            cost_at-modify_or_same id e.account
              (credit_account e.at (estimate_codex_credits e.model e.service_tier e.usage))
              s.accounts (λ a. refl)
            ∙ costs id,
        keyed,
      )
    ]

cost_of-add_cost_at :
    (id key : String) (price : ℤ × Bool) (costs : Costs)
    → cost_of (add_cost_at costs key price) id
      ≡ (if str_eq key id then add_cost (cost_of costs key) price else cost_of costs id)
unfolding cost_of add_cost_at
cost_of-add_cost_at id key price costs =
    rw (lookup-insert_key id key (add_cost (cost_of costs key) price) costs)
      (elim (Bool-cases (str_eq key id)) [ inl e ↦ rw e refl | inr e ↦ rw e refl ])

add_cost_at-IsKeyed :
    (key : String) (price : ℤ × Bool) (costs : Costs)
    → IsKeyed costs
    → IsKeyed (add_cost_at costs key price)
unfolding add_cost_at
add_cost_at-IsKeyed key price costs h =
    insert-IsKeyed key (add_cost (cost_of costs key) price) costs h

-- An event of the month, or of the one before it.
abbrev pub IsRecent : ⦃calendar : Calendar⦄ → Time → UsageEvent → Type 0
IsRecent now e =
    (calendar_month now ≤ calendar_month e.at + 1) × (calendar_month e.at ≤ calendar_month now)

pub month_pos : ⦃calendar : Calendar⦄ (t : Time) → 12 ≤ calendar_month t
unfolding calendar_month
month_pos ⦃calendar⦄ t =
    let (low, high) = calendar.month_range t in
    let year = calendar.year_pos t in omega (arith, low, year)

pub is_before :
    ⦃calendar : Calendar⦄ (now at : Time)
    → before at (calendar.month_start now) ≡ ltb (calendar_month at) (calendar_month now)
unfolding calendar_month
is_before ⦃calendar⦄ now at = calendar.before_start now at

use_month-last :
    (month : ℕ) (e : UsageEvent) (price : ℤ × Bool) (s : Stats)
    → month ≡ s.last_month.month
    → use_month month e price s
      ≡ record s { last_month = add_month s.last_month e.model e.usage price }
unfolding use_month
use_month-last month e price s h =
    let t : (month == s.last_month.month) ≡ true = ground arith in rw t refl

pub use_month_last-Agrees :
    (e : UsageEvent) (price : ℤ × Bool) (prices : PriceSnapshot) (last month : ℕ) (s : Stats)
    (p : Priced)
    → last ≡ s.last_month.month
    → Agrees prices month s p
    → Agrees prices month
        (use_month last e price s)
        (record p { last_month = add_month p.last_month e.model e.usage price })
unfolding add_month
use_month_last-Agrees e price prices last month s p is_last (h1, h2, h3, h4, h5, costs, keyed) =
    rw (use_month-last last e price s is_last)
      (h1, h2, ap (λ m. add_month m e.model e.usage price) h3, h4, h5, costs, keyed)

pub use_month-Agrees :
    (e : UsageEvent) (price : ℤ × Bool) (prices : PriceSnapshot) (month : ℕ) (s : Stats)
    (p : Priced)
    → 12 ≤ month
    → Agrees prices month s p
    → Agrees prices month (use_month month e price s) (record p {
      month = add_month p.month e.model e.usage price;
      account_costs =
          if str_eq e.account ""
          then p.account_costs
          else add_cost_at p.account_costs e.account price;
    })
unfolding use_month sync_usage_month at_account
use_month-Agrees e price prices month s p le (h1, h2, h3, h4, h5, costs, keyed) =
    let a : (month == s.last_month.month) ≡ false = ground arith in
    let b : ltb month s.month.month ≡ false = ground arith in
    let c : (month == s.month.month) ≡ true = ground arith in
    let ms = ap (λ m. add_month m e.model e.usage price) h2 in
    rw a (
      rw b (
        rw c (elim (Bool-cases (str_eq e.account "")) [
          | inl anonymous ↦ rw anonymous (h1, ms, h3, h4, h5, costs, keyed)
          | inr known ↦ rw known (
            h1,
            ms,
            h3,
            h4,
            h5,
            λ id. priced id,
            add_cost_at-IsKeyed e.account price p.account_costs keyed,
          )
        ])))
  where
    priced :
        (id : String)
        → cost_at id (modify_or new_account e.account (price_account price) s.accounts)
          ≡ cost_of (add_cost_at p.account_costs e.account price) id
    priced id =
        cost_at-price id e.account price s.accounts
        ∙ rw (cost_of-add_cost_at id e.account price p.account_costs)
            (rw (costs id) (rw (costs e.account) refl))
