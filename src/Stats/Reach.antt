-- ===== src/Stats/Reach.antt =====
-- The steps of `Stats` of internal/app/stats.go: each takes the mutex for one of the operations.
use codex_balancer.Prelude.{ℕ, Bool, List, String}
use codex_balancer.Account.Window.{Time}
use codex_balancer.Pricing.Estimate.{PriceSnapshot}
use codex_balancer.Stats.Months.{Calendar}
use codex_balancer.Stats.Thread.{Transport, ApiKeyIdentity, Routed}
use codex_balancer.Stats.State.{
  Stats, new_stats_with_prices, note, rate_limited, failed_over, websocket_opened, websocket_closed,
}
use codex_balancer.Stats.Threads.{
  record_accepted, activate_thread, deactivate_thread, apply_answered, apply_completed,
}
use codex_balancer.Stats.Usage.{UsageEvent, apply_usage_at, reprice}
use codex_balancer.Stats.Snapshot.{take_snapshot}

-- `mask` hides the emails of an event's detail; `now` is what `time.Now` gives the operation.
pub data Step ⦃calendar : Calendar⦄ (mask : String → String) : Stats → Stats → Type 0 where
  noted :
      {s : Stats} (now : Time) (kind account detail : String)
      → Step mask s (note mask now kind account detail s)
  limit :
      {s : Stats} (now : Time) (account : String) → Step mask s (rate_limited mask now account s)
  failover :
      {s : Stats} (now : Time) (account reason : String)
      → Step mask s (failed_over mask now account reason s)
  accepts :
      {s : Stats} (now : Time) (thread : String) (api_key : ApiKeyIdentity) (via : Transport)
      (r : Routed) (counted : Bool)
      → Step mask s (record_accepted now thread api_key via r counted s)
  activates :
      {s : Stats} (now : Time) (thread : String) → Step mask s (activate_thread now thread s)
  deactivates : {s : Stats} (thread : String) → Step mask s (deactivate_thread thread s)
  opens : {s : Stats} (account : String) → Step mask s (websocket_opened account s)
  closes : {s : Stats} (account : String) → Step mask s (websocket_closed account s)
  answers :
      {s : Stats} (now : Time) (thread account : String) (ttfb : ℕ)
      → Step mask s (apply_answered now thread account ttfb s)
  completes :
      {s : Stats} (now : Time) (thread account request_kind : String) (latency : ℕ)
      → Step mask s (apply_completed now thread account request_kind latency s)
  uses :
      {s : Stats} (e : UsageEvent) (thread effort : String)
      → Step mask s (apply_usage_at e thread effort s)
  snapshots : {s : Stats} (now : Time) → Step mask s (take_snapshot now s)
  reprices :
      {s : Stats} (now : Time) (prices : PriceSnapshot) (events : List UsageEvent)
      → Step mask s (reprice now prices events s)

pub data Reach ⦃calendar : Calendar⦄ (mask : String → String) : Stats → Type 0 where
  fresh : (now : Time) (prices : PriceSnapshot) → Reach mask (new_stats_with_prices now prices)
  next : {s t : Stats} → Reach mask s → Step mask s t → Reach mask t
