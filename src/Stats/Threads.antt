-- ===== src/Stats/Threads.antt =====
-- The operations of `Stats` of internal/app/stats.go on the histories of threads.
use codex_balancer.Prelude.{
  ℕ, ◌+◌, ◌-◌, ◌*◌, false, ◌==◌, ltb, if◌then◌else◌, Bool, not, ◌&&◌, Option, none, some, keep,
  String, str_eq,
}
use codex_balancer.Prelude.Maps.{lookup, erase, insert, modify, modify_or, value_or}
use codex_balancer.Account.Window.{Time, minute, after, earlier}
use codex_balancer.Ledger.Credits.{wrap_add}
use codex_balancer.Stats.Rolling.{add}
use codex_balancer.Stats.Thread.{
  Transport, ApiKeyIdentity, ThreadStats, Routed, new_thread, route_thread, answer_thread,
  complete_thread,
}
use codex_balancer.Stats.State.{AccountStats, Stats, at_account}

abbrev pub thread_history_window : ℕ
thread_history_window = 5 * minute

-- The count of the relays that hold a thread; a missing one is 0.
unfoldable pub live_count : Stats → String → ℕ
unfolding lookup
live_count s thread = value_or 0 (lookup str_eq thread s.live_threads)

abbrev pub is_fresh : Time → ThreadStats → Bool
is_fresh now t = after t.last (earlier now thread_history_window)

unfoldable pub prune_thread_history : Time → Stats → Stats
unfolding live_count
prune_thread_history now s = record s {
  threads = keep (λ (key, t). not (live_count s key == 0 && not (is_fresh now t))) s.threads;
}

abbrev pub count_turn : Time → AccountStats → AccountStats
count_turn now a = record a { turns = wrap_add a.turns 1; activity = add a.activity now }

unfoldable pub apply_routed : Time → String → Routed → Stats → Stats
unfolding at_account add prune_thread_history modify_or new_thread route_thread
apply_routed now thread r s =
    let counted = at_account r.account (count_turn now) (record s { turns = wrap_add s.turns 1 }) in
    let pruned = prune_thread_history now counted in
    if str_eq thread "" then counted else record pruned {
      threads = modify_or (new_thread now) thread (route_thread now r) pruned.threads;
    }

-- `recordAccepted`.
unfoldable pub record_accepted :
    Time → String → ApiKeyIdentity → Transport → Routed → Bool → Stats → Stats
unfolding apply_routed modify
record_accepted at thread api_key via r counted s =
    let routed = apply_routed at thread r s in
    if not counted then s else record routed {
      threads = modify thread (λ t. record t { api_key = api_key; via = via }) routed.threads;
    }

abbrev pub is_stale : Time → Option ThreadStats → Bool
is_stale now none = false
is_stale now (some t) = not (is_fresh now t)

unfoldable pub activate_thread : Time → String → Stats → Stats
unfolding live_count lookup erase insert
activate_thread now thread s =
    let refs = live_count s thread in
    let threads =
      if refs == 0 && is_stale now (lookup str_eq thread s.threads)
      then erase str_eq thread s.threads
      else s.threads in
    if str_eq thread "" then s else record s {
      threads = threads;
      live_threads = insert str_eq thread (refs + 1) s.live_threads;
    }

unfoldable pub deactivate_thread : String → Stats → Stats
unfolding live_count erase insert
deactivate_thread thread s =
    let refs = live_count s thread in
    if str_eq thread ""
    then s
    else if ltb 1 refs
    then record s { live_threads = insert str_eq thread (refs - 1) s.live_threads }
    else if refs == 1
    then record s { live_threads = erase str_eq thread s.live_threads }
    else s

unfoldable pub apply_answered : Time → String → String → ℕ → Stats → Stats
unfolding modify answer_thread
apply_answered at thread account ttfb s = record s {
  ttfb_sum = wrap_add s.ttfb_sum ttfb;
  ttfb_n = wrap_add s.ttfb_n 1;
  threads = modify thread (answer_thread at account ttfb) s.threads;
}

unfoldable pub apply_completed : Time → String → String → String → ℕ → Stats → Stats
unfolding modify complete_thread
apply_completed at thread account request_kind latency s = record s {
  threads = modify thread (complete_thread at account request_kind latency) s.threads;
}
