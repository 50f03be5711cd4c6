-- ===== src/Stats/Snapshot.antt =====
-- What `Stats.snapshot` of internal/app/stats.go changes in the state before and while it copies it.
use codex_balancer.Prelude.{List, [], ◌∷◌, String}
use codex_balancer.Account.Window.{Time}
use codex_balancer.Stats.Months.{Calendar, calendar_month}
use codex_balancer.Stats.Rolling.{recent}
use codex_balancer.Stats.State.{AccountStats, Stats}
use codex_balancer.Stats.Threads.{prune_thread_history}
use codex_balancer.Stats.Usage.{sync_usage_month}

-- `recent` moves the starts of the two counters that are read.
abbrev pub read_account : Time → AccountStats → AccountStats
read_account now a = record a {
  activity = (recent a.activity now).0;
  limited = (recent a.limited now).0;
}

unfoldable pub read_accounts : Time → List (String × AccountStats) → List (String × AccountStats)
read_accounts now [] = []
read_accounts now ((id, a) ∷ accounts) = (id, read_account now a) ∷ read_accounts now accounts

unfoldable pub take_snapshot : ⦃calendar : Calendar⦄ → Time → Stats → Stats
unfolding sync_usage_month prune_thread_history read_accounts
take_snapshot now s =
    let pruned = prune_thread_history now (sync_usage_month (calendar_month now) s) in
    record pruned { accounts = read_accounts now pruned.accounts }
