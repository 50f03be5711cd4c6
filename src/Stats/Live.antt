-- ===== src/Stats/Live.antt =====
-- The histories of the threads that are live, in `Stats` of internal/app/stats.go.
use codex_balancer.Prelude.{
  ◌∙◌, ap, ℕ, ◌==◌, ◌≤◌, ◌≡◌, refl, Bool, true, false, Bool-cases, inl, inr, not, ◌&&◌, some, List,
  String, str_eq, eq_iff, arith, ℤ,
}
use codex_balancer.Prelude.Maps.{erase, lookup, lookup-erase_key}
use codex_balancer.Account.Window.{Time}
use codex_balancer.Pricing.Usage.{ResponseUsage}
use codex_balancer.Stats.Months.{Calendar, calendar_month}
use codex_balancer.Stats.Thread.{
  Transport, ApiKeyIdentity, ThreadStats, Routed, new_thread, new_segment, route_thread,
  answer_thread, complete_thread, use_thread,
}
use codex_balancer.Stats.State.{
  Stats, at_account, append_event, note, apply_rate_limited, rate_limited, failed_over,
  websocket_opened, websocket_closed,
}
use codex_balancer.Stats.Threads.{
  is_stale, apply_routed, record_accepted, activate_thread, deactivate_thread, apply_answered,
  apply_completed, prune_thread_history, live_count, is_fresh,
}
use codex_balancer.Stats.Usage.{
  UsageEvent, apply_usage_at, reprice, use_month, add_credits, sync_usage_month, use_credits,
  price_now,
}
use codex_balancer.Stats.Snapshot.{take_snapshot}
use codex_balancer.Stats.Reach.{
  Step, noted, limit, failover, accepts, activates, deactivates, opens, closes, answers, completes,
  uses, reprices, snapshots,
}
use codex_balancer.Stats.Kept.{Kept, modify-Kept, keep-Kept, modify_or-Kept}

route_thread-created :
    (now : Time) (r : Routed) (t : ThreadStats) → (route_thread now r t).created_at ≡ t.created_at
unfolding route_thread new_segment
route_thread-created now r t = ground arith

answer_thread-created :
    (at : Time) (account : String) (ttfb : ℕ) (t : ThreadStats)
    → (answer_thread at account ttfb t).created_at ≡ t.created_at
unfolding answer_thread
answer_thread-created at account ttfb t = ground arith

complete_thread-created :
    (at : Time) (account kind : String) (latency : ℕ) (t : ThreadStats)
    → (complete_thread at account kind latency t).created_at ≡ t.created_at
unfolding complete_thread
complete_thread-created at account kind latency t = ground arith

use_thread-created :
    (at : Time) (account model effort : String) (usage : ResponseUsage) (price : ℤ × Bool)
    (t : ThreadStats)
    → (use_thread at account model effort usage price t).created_at ≡ t.created_at
unfolding use_thread
use_thread-created at account model effort usage price t = ground arith

module _ (thread : String) (h : ThreadStats) where
  record_accepted-Kept :
      (now : Time) (key : String) (api_key : ApiKeyIdentity) (via : Transport) (r : Routed)
      (counted : Bool) (s : Stats)
      → 1 ≤ live_count s thread
      → Kept thread h s.threads
      → Kept thread h (record_accepted now key api_key via r counted s).threads
  unfolding record_accepted apply_routed at_account prune_thread_history live_count
  record_accepted-Kept now key api_key via r false s live kept = kept
  record_accepted-Kept now key api_key via r true s live kept =
      let pruned =
        keep-Kept thread h (λ (k, t). not (live_count s k == 0 && not (is_fresh now t))) s.threads
          (λ t. ground arith) kept in
      elim (Bool-cases (str_eq key "")) [
        | inl e ↦ rw e (modify-Kept thread h key _ s.threads (λ t. refl) kept)
        | inr e ↦ rw e (
            modify-Kept thread h key _ _ (λ t. refl)
              (modify_or-Kept thread h (new_thread now) key (route_thread now r) _
                (route_thread-created now r) pruned))
      ]

  erase-Kept :
      (key : String) (threads : List (String × ThreadStats))
      → str_eq key thread ≡ false
      → Kept thread h threads
      → Kept thread h (erase str_eq key threads)
  erase-Kept key threads other (k, found, began) =
      (k, (rw (lookup-erase_key thread key threads) (rw other found)), began)

  activate_thread-Kept :
      (now : Time) (key : String) (s : Stats)
      → 1 ≤ live_count s thread
      → Kept thread h s.threads
      → Kept thread h (activate_thread now key s).threads
  unfolding activate_thread
  activate_thread-Kept now key s live kept =
      let drops = live_count s key == 0 && is_stale now (lookup str_eq key s.threads) in
      elim (Bool-cases (str_eq key "")) [
        | inl e ↦ rw e kept
        | inr e ↦ rw e (elim (Bool-cases drops) [
          | inl gone ↦ rw gone (erase-Kept key s.threads (other key s live gone) kept)
          | inr stays ↦ rw stays kept
        ])
      ]
    where
      other :
          (key : String) (s : Stats)
          → 1 ≤ live_count s thread
          → live_count s key == 0 && is_stale now (lookup str_eq key s.threads) ≡ true
          → str_eq key thread ≡ false
      other key s live gone = elim (Bool-cases (str_eq key thread)) [
        | inl e ↦
            let eq : key ≡ thread = (eq_iff key thread).0 e in
            let same : live_count s key ≡ live_count s thread = ap (live_count s) eq in ground arith
        | inr e ↦ e
      ]

  use_month-threads :
      (month : ℕ) (e : UsageEvent) (price : ℤ × Bool) (s : Stats)
      → (use_month month e price s).threads ≡ s.threads
  unfolding use_month sync_usage_month at_account
  use_month-threads month e price s = ground arith

  add_credits-threads : (e : UsageEvent) (s : Stats) → (add_credits e s).threads ≡ s.threads
  unfolding add_credits at_account
  add_credits-threads e s = elim (Bool-cases (str_eq e.account "")) [
    | inl anonymous ↦ rw anonymous refl
    | inr known ↦ rw known refl
  ]

  apply_usage_at-Kept :
      ⦃calendar : Calendar⦄ (e : UsageEvent) (key effort : String) (s : Stats)
      → Kept thread h s.threads
      → Kept thread h (apply_usage_at e key effort s).threads
  unfolding apply_usage_at use_credits
  apply_usage_at-Kept e key effort s kept =
      let credited = add_credits e s in
      rw (use_month-threads (calendar_month e.at) e (price_now e s) (use_credits e key effort s)) (
        modify-Kept thread h key _ credited.threads
          (use_thread-created e.at e.account e.model effort e.usage (price_now e s))
          (rw (add_credits-threads e s) kept))

  take_snapshot-Kept :
      ⦃calendar : Calendar⦄ (now : Time) (s : Stats)
      → 1 ≤ live_count s thread
      → Kept thread h s.threads
      → Kept thread h (take_snapshot now s).threads
  unfolding take_snapshot sync_usage_month prune_thread_history live_count
  take_snapshot-Kept now s live kept =
      let pruned =
        keep-Kept thread h (λ (k, t). not (live_count s k == 0 && not (is_fresh now t))) s.threads
          (λ t. ground arith) kept in
      elim (Bool-cases (calendar_month now == s.month.month)) [
        | inl same ↦ rw same pruned
        | inr new ↦ rw new pruned
      ]

deactivate_thread-threads :
    (key : String) (s : Stats) → (deactivate_thread key s).threads ≡ s.threads
unfolding deactivate_thread
deactivate_thread-threads key s = ground arith

-- Whichever of the operations that change the statistics is done, snapshots included, a thread whose
-- live count is at least 1 keeps its history: the history is neither pruned nor begun anew, though a
-- move to another account begins a new segment of it.
pub Step-Kept :
    ⦃calendar : Calendar⦄ {mask : String → String} {s t : Stats} (thread : String) (h : ThreadStats)
    → Step mask s t
    → 1 ≤ live_count s thread
    → lookup str_eq thread s.threads ≡ some h
    → Kept thread h t.threads
unfolding note rate_limited apply_rate_limited failed_over append_event websocket_opened
    websocket_closed at_account apply_answered apply_completed reprice deactivate_thread
Step-Kept thread h (noted now kind account detail) live found = (h, found, refl)
Step-Kept thread h (limit now account) live found = (h, found, refl)
Step-Kept thread h (failover now account reason) live found = (h, found, refl)
Step-Kept {s = s} thread h (accepts now key api_key via r counted) live found =
    record_accepted-Kept thread h now key api_key via r counted s live (h, found, refl)
Step-Kept {s = s} thread h (activates now key) live found =
    activate_thread-Kept thread h now key s live (h, found, refl)
Step-Kept {s = s} thread h (deactivates key) live found =
    (h, ap (lookup str_eq thread) (deactivate_thread-threads key s) ∙ found, refl)
Step-Kept thread h (opens account) live found = (h, found, refl)
Step-Kept thread h (closes account) live found = (h, found, refl)
Step-Kept {s = s} thread h (answers now key account ttfb) live found =
    modify-Kept thread h key (answer_thread now account ttfb) s.threads
      (answer_thread-created now account ttfb) (h, found, refl)
Step-Kept {s = s} thread h (completes now key account kind latency) live found =
    modify-Kept thread h key (complete_thread now account kind latency) s.threads
      (complete_thread-created now account kind latency) (h, found, refl)
Step-Kept {s = s} thread h (uses e key effort) live found =
    apply_usage_at-Kept thread h e key effort s (h, found, refl)
Step-Kept {s = s} thread h (snapshots now) live found =
    take_snapshot-Kept thread h now s live (h, found, refl)
Step-Kept thread h (reprices now prices events) live found = (h, found, refl)
