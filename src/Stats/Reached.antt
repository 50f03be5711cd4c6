-- ===== src/Stats/Reached.antt =====
-- The invariant of `Stats` of internal/app/stats.go, kept by the operations on usage and by every step.
use codex_balancer.Prelude.{
  ℕ, ◌+◌, ◌-◌, ◌^◌, ◌==◌, ◌≤◌, ◌≡◌, refl, ltb, Bool, Bool-cases, inl, inr, List, [], ◌∷◌, String,
  str_eq, arith, ℤ,
}
use codex_balancer.Ledger.Credits.{wrap_add}
use codex_balancer.Pricing.Estimate.{PriceSnapshot}
use codex_balancer.Account.Window.{Time, before}
use codex_balancer.Stats.Credits.{estimate_codex_credits}
use codex_balancer.Stats.Months.{Calendar, calendar_month, add_month}
use codex_balancer.Stats.State.{
  Stats, new_stats_with_prices, at_account, note, failed_over, websocket_opened, websocket_closed,
  event_of, open_socket, close_socket,
}
use codex_balancer.Stats.Threads.{prune_thread_history, apply_answered, apply_completed}
use codex_balancer.Stats.Usage.{
  UsageEvent, apply_usage_at, reprice, use_month, no_priced, price_now, use_credits, clear_costs,
  price_account, credit_account, Priced, price_event, price_events, add_credits, sync_usage_month,
}
use codex_balancer.Stats.Snapshot.{take_snapshot}
use codex_balancer.Stats.Reach.{
  Step, noted, limit, failover, accepts, activates, deactivates, opens, closes, answers, completes,
  uses, reprices, snapshots, Reach, fresh, next,
}
use codex_balancer.Stats.Sums.{
  total, modify_or-IsCounted, modify_or-IsCounted_same, clear_costs-IsCounted,
  write_costs-IsCounted, read_accounts-IsCounted,
}
use codex_balancer.Stats.Invariant.{
  StatsInv, append_event-StatsInv, rate_limited-StatsInv, record_accepted-StatsInv,
  activate_thread-StatsInv, deactivate_thread-StatsInv,
}

calendar_month-pos : ⦃calendar : Calendar⦄ (t : Time) → 1 ≤ calendar_month t
unfolding calendar_month
calendar_month-pos ⦃calendar⦄ t =
    let (low, high) = calendar.month_range t in
    let year = calendar.year_pos t in omega (arith, low, year)

sync_usage_month-StatsInv :
    (month : ℕ) (s : Stats) → 1 ≤ month → StatsInv s → StatsInv (sync_usage_month month s)
unfolding sync_usage_month
sync_usage_month-StatsInv month s le (counted, months, events, live) =
    elim (Bool-cases (month == s.month.month)) [
      | inl e ↦ rw e (counted, months, events, live)
      | inr e ↦
          rw e
            (clear_costs-IsCounted s.turns s.ws_open s.accounts counted, ground arith, events, live)
    ]

use_month-StatsInv :
    (month : ℕ) (e : UsageEvent) (price : ℤ × Bool) (s : Stats)
    → 1 ≤ month
    → StatsInv s
    → StatsInv (use_month month e price s)
unfolding use_month add_month at_account
use_month-StatsInv month e price s le h =
    let (counted, months, events, live) = h in
    let (c, m, ev, l) = sync_usage_month-StatsInv month s le h in
    let synced = sync_usage_month month s in
    elim (Bool-cases (month == s.last_month.month)) [
      | inl last ↦ rw last (counted, months, events, live)
      | inr new ↦ rw new (elim (Bool-cases (ltb month s.month.month)) [
        | inl old ↦ rw old (counted, months, events, live)
        | inr now ↦ rw now (elim (Bool-cases (str_eq e.account "")) [
          | inl anonymous ↦ rw anonymous (c, m, ev, l)
          | inr known ↦ rw known (
            modify_or-IsCounted_same e.account (price_account price) (λ a. (refl, refl))
                synced.turns synced.ws_open synced.accounts c,
            m,
            ev,
            l,
          )
        ])
      ])
    ]

add_credits-StatsInv : (e : UsageEvent) (s : Stats) → StatsInv s → StatsInv (add_credits e s)
unfolding add_credits at_account
add_credits-StatsInv e s (counted, months, events, live) = elim (Bool-cases (str_eq e.account "")) [
  | inl anonymous ↦ rw anonymous (counted, months, events, live)
  | inr known ↦ rw known (
    modify_or-IsCounted_same e.account
        (credit_account e.at (estimate_codex_credits e.model e.service_tier e.usage))
        (λ a. (refl, refl)) s.turns s.ws_open s.accounts counted,
    months,
    events,
    live,
  )
]

price_events-months :
    ⦃calendar : Calendar⦄ (prices : PriceSnapshot) (start : Time) (events : List UsageEvent)
    (p : Priced)
    → p.month.month ≡ p.last_month.month + 1
    → (price_events prices start events p).month.month
      ≡ (price_events prices start events p).last_month.month + 1
unfolding price_events price_event add_month
price_events-months prices start [] p h = h
price_events-months prices start (e ∷ events) p h =
    price_events-months prices start events (price_event prices start e p)
      (elim (Bool-cases (before e.at start)) [ inl old ↦ rw old h | inr new ↦ rw new h ])

take_snapshot-StatsInv :
    ⦃calendar : Calendar⦄ (now : Time) (s : Stats) → StatsInv s → StatsInv (take_snapshot now s)
unfolding take_snapshot prune_thread_history
take_snapshot-StatsInv now s h =
    let synced = sync_usage_month (calendar_month now) s in
    let (counted, months, events, live) =
      sync_usage_month-StatsInv (calendar_month now) s (calendar_month-pos now) h in
    (
      read_accounts-IsCounted now synced.turns synced.ws_open synced.accounts counted,
      months,
      events,
      live,
    )

sub_suc : (n : ℕ) → 1 ≤ n → n ≡ n - 1 + 1
sub_suc n h = omega arith

Step-StatsInv :
    ⦃calendar : Calendar⦄ {mask : String → String} {s t : Stats}
    → Step mask s t
    → StatsInv s
    → StatsInv t
unfolding note failed_over websocket_opened websocket_closed apply_answered apply_completed
    apply_usage_at use_credits reprice calendar_month at_account
Step-StatsInv {mask} {s} (noted now kind account detail) h =
    append_event-StatsInv mask (event_of now kind account detail) s h
Step-StatsInv {mask} {s} (limit now account) h = rate_limited-StatsInv mask now account s h
Step-StatsInv {mask} {s} (failover now account reason) h =
    append_event-StatsInv mask (event_of now "failover" account reason)
      (record s { failures = wrap_add s.failures 1 }) h
Step-StatsInv {s = s} (accepts now thread api_key via r counted) h =
    record_accepted-StatsInv now thread api_key via r counted s h
Step-StatsInv {s = s} (activates now thread) h = activate_thread-StatsInv now thread s h
Step-StatsInv {s = s} (deactivates thread) h = deactivate_thread-StatsInv thread s h
Step-StatsInv {s = s} (opens account) (counted, months, events, live) =
    let (t, w) =
      modify_or-IsCounted account open_socket 0 1 (λ a. (omega arith, omega arith)) s.turns
        s.ws_open s.accounts counted in
    ((omega (arith, t, counted.0), w), months, events, live)
Step-StatsInv {s = s} (closes account) (counted, months, events, live) =
    let (t, w) =
      modify_or-IsCounted account close_socket 0 (2 ^ 64 - 1) (λ a. (omega arith, omega arith))
        s.turns s.ws_open s.accounts counted in
    ((omega (arith, t, counted.0), w), months, events, live)
Step-StatsInv (answers now thread account ttfb) h = h
Step-StatsInv (completes now thread account request_kind latency) h = h
Step-StatsInv {s = s} (uses e thread effort) h =
    use_month-StatsInv (calendar_month e.at) e (price_now e s) (use_credits e thread effort s)
      (calendar_month-pos e.at) (add_credits-StatsInv e s h)
Step-StatsInv {s = s} (snapshots now) h = take_snapshot-StatsInv now s h
Step-StatsInv ⦃calendar⦄ {s = s} (reprices now prices events) (counted, months, log, live) =
    let start = calendar.month_start now in
    let costs = no_priced (calendar_month now) in
    (
      write_costs-IsCounted s.turns s.ws_open (price_events prices start events costs).account_costs
          (clear_costs s.accounts) (clear_costs-IsCounted s.turns s.ws_open s.accounts counted),
      price_events-months prices start events costs (sub_suc _ (calendar_month-pos now)),
      log,
      live,
    )

-- After any operations on a fresh state, snapshots included, the turns and the open sockets that the server counts are the
-- sums of those of its accounts, modulo 2 ^ 64; the month kept before the current one is its
-- predecessor; at most 200 events are kept; and every count of a live thread is at least 1.
pub Reach-StatsInv :
    ⦃calendar : Calendar⦄ {mask : String → String} {s : Stats} → Reach mask s → StatsInv s
unfolding new_stats_with_prices calendar_month total
Reach-StatsInv (fresh now prices) =
    ((refl, refl), sub_suc _ (calendar_month-pos now), omega arith, tt)
Reach-StatsInv (next reach step) = Step-StatsInv step (Reach-StatsInv reach)
