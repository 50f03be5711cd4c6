-- ===== src/Stats/Invariant.antt =====
-- What holds of `Stats` of internal/app/stats.go after any steps.
use codex_balancer.Prelude.{
  ℕ, ◌+◌, ◌-◌, ◌==◌, ◌≤◌, ◌≡◌, refl, ltb, Bool, true, false, Bool-cases, inl, inr, List, [], ◌∷◌,
  ◌++◌, String, str_eq, arith, length, All,
}
use codex_balancer.Prelude.Maps.{erase, insert}
use codex_balancer.Account.Window.{Time}
use codex_balancer.Stats.Thread.{Transport, ApiKeyIdentity, Routed}
use codex_balancer.Stats.State.{
  Event, Stats, at_account, append_event, apply_rate_limited, rate_limited, drop_events, event_of,
  limit_account, event_log,
}
use codex_balancer.Stats.Threads.{
  apply_routed, record_accepted, activate_thread, deactivate_thread, prune_thread_history,
  live_count, count_turn,
}
use codex_balancer.Stats.Sums.{IsCounted, modify_or-IsCounted, modify_or-IsCounted_same}

-- The turns and the open sockets are those of the accounts, the kept months are successive, no more
-- events are kept than the log holds, and the count of a live thread is at least 1.
abbrev pub StatsInv : Stats → Type 0
StatsInv s =
    IsCounted s.turns s.ws_open s.accounts
    × (s.month.month ≡ s.last_month.month + 1)
    × (length s.events ≤ 200)
    × All (λ (key, refs). 1 ≤ refs) s.live_threads

length-drop_events :
    (n : ℕ) (events : List Event) → length (drop_events n events) ≡ length events - n
length-drop_events n [] = omega arith
length-drop_events n (e ∷ events) = let ih = length-drop_events (n - 1) events in ground arith

append_event-bound :
    (mask : String → String) (event : Event) (s : Stats)
    → length (append_event mask event s).events ≤ 200
unfolding append_event
append_event-bound mask event s =
    let masked = record event { detail = mask event.detail; private_detail = event.detail } in
    let long = s.events ++ masked ∷ [] in
    elim (Bool-cases (ltb event_log (length long))) [
      | inl more ↦ rw more (let h = length-drop_events (length long - 200) long in ground arith)
      | inr fits ↦ rw fits (ground arith)
    ]

All-erase :
    (key : String) (live : List (String × ℕ))
    → All (λ (key, refs). 1 ≤ refs) live
    → All (λ (key, refs). 1 ≤ refs) (erase str_eq key live)
unfolding erase
All-erase key [] h = tt
All-erase key ((j, refs) ∷ live) h = elim (Bool-cases (str_eq j key)) [
  | inl e ↦ rw e (All-erase key live h.1)
  | inr e ↦ rw e (h.0, All-erase key live h.1)
]

pub append_event-StatsInv :
    (mask : String → String) (event : Event) (s : Stats)
    → StatsInv s
    → StatsInv (append_event mask event s)
unfolding append_event
append_event-StatsInv mask event s (counted, months, events, live) =
    (counted, months, append_event-bound mask event s, live)

pub rate_limited-StatsInv :
    (mask : String → String) (now : Time) (account : String) (s : Stats)
    → StatsInv s
    → StatsInv (rate_limited mask now account s)
unfolding rate_limited apply_rate_limited at_account
rate_limited-StatsInv mask now account s (counted, months, events, live) =
    append_event-StatsInv mask (event_of now "rate limited" account "")
      (apply_rate_limited now account s)
      (
        modify_or-IsCounted_same account (limit_account now) (λ a. (refl, refl)) s.turns s.ws_open
            s.accounts counted,
        months,
        events,
        live,
      )

pub record_accepted-StatsInv :
    (now : Time) (thread : String) (api_key : ApiKeyIdentity) (via : Transport) (r : Routed)
    (counted : Bool) (s : Stats)
    → StatsInv s
    → StatsInv (record_accepted now thread api_key via r counted s)
unfolding record_accepted apply_routed at_account prune_thread_history
record_accepted-StatsInv now thread api_key via r false s h = h
record_accepted-StatsInv now thread api_key via r true s ((t, w), months, events, live) =
    let counted =
      modify_or-IsCounted r.account (count_turn now) 1 0 (λ a. (omega arith, omega arith)) s.turns
        s.ws_open s.accounts (t, w) in
    elim (Bool-cases (str_eq thread "")) [
      | inl e ↦ rw e ((counted.0, omega (arith, counted.1, w)), months, events, live)
      | inr e ↦ rw e ((counted.0, omega (arith, counted.1, w)), months, events, live)
    ]

pub activate_thread-StatsInv :
    (now : Time) (thread : String) (s : Stats)
    → StatsInv s
    → StatsInv (activate_thread now thread s)
unfolding activate_thread insert
activate_thread-StatsInv now thread s (counted, months, events, live) =
    elim (Bool-cases (str_eq thread "")) [
      | inl e ↦ rw e (counted, months, events, live)
      | inr e ↦ rw e (counted, months, events, (omega arith, All-erase thread s.live_threads live))
    ]

pub deactivate_thread-StatsInv :
    (thread : String) (s : Stats) → StatsInv s → StatsInv (deactivate_thread thread s)
unfolding deactivate_thread insert
deactivate_thread-StatsInv thread s (counted, months, events, live) =
    let erased = All-erase thread s.live_threads live in
    elim (Bool-cases (str_eq thread "")) [
      | inl e ↦ rw e (counted, months, events, live)
      | inr e ↦ rw e (elim (Bool-cases (ltb 1 (live_count s thread))) [
        | inl more ↦ rw more (counted, months, events, (ground arith, erased))
        | inr one ↦ rw one (elim (Bool-cases (live_count s thread == 1)) [
          | inl last ↦ rw last (counted, months, events, erased)
          | inr gone ↦ rw gone (counted, months, events, live)
        ])
      ])
    ]
