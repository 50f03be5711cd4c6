-- ===== src/Stats/Repriced.antt =====
-- `reprice` of internal/app/stats.go against the replay of the same events from a fresh start.
use codex_balancer.Prelude.{
  ◌-◌, ◌≡◌, refl, sym, ap, ◌∙◌, ltb, if◌then◌else◌, Bool-cases, Option-cases, inl, inr, List, [],
  ◌∷◌, String, str_eq, arith, All,
}
use codex_balancer.Prelude.Maps.{lookup, value_or}
use codex_balancer.Account.Window.{Time, before}
use codex_balancer.Pricing.Usage.{no_cost}
use codex_balancer.Pricing.Estimate.{PriceSnapshot, estimate}
use codex_balancer.Stats.Months.{Calendar, calendar_month, Costs, cost_of, add_cost_at, add_month}
use codex_balancer.Stats.State.{Stats, new_stats_with_prices}
use codex_balancer.Stats.Usage.{
  UsageEvent, apply_usage_at, replay, reprice, use_month, Priced, price_event, price_events,
  no_priced, price_now, use_credits, clear_costs,
}
use codex_balancer.Stats.AccountCosts.{monthly_cost, cost_at-clear, cost_at-write}
use codex_balancer.Stats.Agreement.{
  Agrees, IsRecent, use_credits-Agrees, month_pos, is_before, use_month_last-Agrees,
  use_month-Agrees,
}

apply_usage_at-eq :
    ⦃calendar : Calendar⦄ (e : UsageEvent) (s : Stats)
    → apply_usage_at e "" "" s
      ≡ use_month (calendar_month e.at) e (price_now e s) (use_credits e "" "" s)
unfolding apply_usage_at
apply_usage_at-eq e s = refl

-- What `reprice` adds an event to, by the month of the event.
price_event-eq :
    ⦃calendar : Calendar⦄ (prices : PriceSnapshot) (start : Time) (e : UsageEvent) (p : Priced)
    → let price = estimate prices e.model e.service_tier e.usage in
      price_event prices start e p ≡ (
        if before e.at start
        then record p { last_month = add_month p.last_month e.model e.usage price }
        else record p {
          month = add_month p.month e.model e.usage price;
          account_costs =
              if str_eq e.account ""
              then p.account_costs
              else add_cost_at p.account_costs e.account price;
        })
unfolding price_event
price_event-eq prices start e p = refl

apply_usage_at-Agrees :
    ⦃calendar : Calendar⦄ (now : Time) (prices : PriceSnapshot) (e : UsageEvent) (s : Stats)
    (p : Priced)
    → IsRecent now e
    → Agrees prices (calendar_month now) s p
    → Agrees prices
        (calendar_month now)
        (apply_usage_at e "" "" s)
        (price_event prices (calendar.month_start now) e p)
apply_usage_at-Agrees ⦃calendar⦄ now prices e s p (low, high) h =
    let price = estimate prices e.model e.service_tier e.usage in
    let month = calendar_month now in
    let used_s = use_credits e "" "" s in
    let used = use_credits-Agrees e prices month s p h in
    let same : price_now e s ≡ price = ap (λ q. estimate q e.model e.service_tier e.usage) h.0 in
    let last_is : used_s.last_month.month ≡ month - 1 = used.4 in
    let le = month_pos now in
    let left = apply_usage_at-eq e s in
    let right = price_event-eq prices (calendar.month_start now) e p in
    elim (Bool-cases (ltb (calendar_month e.at) month)) [
      | inl old ↦
          let last : calendar_month e.at ≡ used_s.last_month.month = ground (arith, last_is) in
          rw left (
            rw right (
              rw (is_before now e.at ∙ old) (
                rw same (
                  use_month_last-Agrees e price prices (calendar_month e.at) month used_s p last
                    used))))
      | inr new ↦
          let now_month : calendar_month e.at ≡ month = ground arith in
          rw left (
            rw right (
              rw (is_before now e.at ∙ new)
                (rw same (rw now_month (use_month-Agrees e price prices month used_s p le used)))))
    ]

replay-Agrees :
    ⦃calendar : Calendar⦄ (now : Time) (prices : PriceSnapshot) (events : List UsageEvent)
    (s : Stats) (p : Priced)
    → All (IsRecent now) events
    → Agrees prices (calendar_month now) s p
    → Agrees prices
        (calendar_month now)
        (replay events s)
        (price_events prices (calendar.month_start now) events p)
unfolding replay price_events
replay-Agrees now prices [] s p recent h = h
replay-Agrees ⦃calendar⦄ now prices (e ∷ events) s p (first, recent) h =
    replay-Agrees now prices events _ _ recent (apply_usage_at-Agrees now prices e s p first h)

fresh-Agrees :
    ⦃calendar : Calendar⦄ (now : Time) (prices : PriceSnapshot)
    → Agrees prices
        (calendar_month now)
        (new_stats_with_prices now prices)
        (no_priced (calendar_month now))
unfolding new_stats_with_prices lookup cost_of
fresh-Agrees now prices = (refl, refl, refl, refl, refl, λ id. refl, tt)

cost_or-value :
    (id : String) (costs : Costs) → value_or no_cost (lookup str_eq id costs) ≡ cost_of costs id
unfolding cost_of
cost_or-value id costs = elim (Option-cases (lookup str_eq id costs)) [
  | inl e ↦ rw e refl
  | inr (c, e) ↦ rw e refl
]

-- For usage events of the current month or the one before it, `reprice` leaves in any statistics the
-- month, the month before it and the monthly cost of every account that replaying the same events
-- one by one gives a fresh start with the new prices.
pub reprice-replay :
    ⦃calendar : Calendar⦄ (now : Time) (prices : PriceSnapshot) (events : List UsageEvent)
    (s : Stats) (id : String)
    → All (IsRecent now) events
    → let repriced = reprice now prices events s in
      let replayed = replay events (new_stats_with_prices now prices) in
      (repriced.month ≡ replayed.month)
      × (repriced.last_month ≡ replayed.last_month)
      × (monthly_cost repriced id ≡ monthly_cost replayed id)
unfolding reprice monthly_cost cost_of
reprice-replay ⦃calendar⦄ now prices events s id recent =
    let start = no_priced (calendar_month now) in
    let priced = price_events prices (calendar.month_start now) events start in
    let agreed =
      replay-Agrees now prices events (new_stats_with_prices now prices) start recent
        (fresh-Agrees now prices) in
    let written = cost_at-write id priced.account_costs (clear_costs s.accounts) agreed.6 in
    (
      sym agreed.1,
      sym agreed.2,
      written
          ∙ rw (cost_at-clear id s.accounts) (cost_or-value id priced.account_costs)
          ∙ sym (agreed.5 id),
    )
