-- ===== src/Stats.antt =====
-- The server's statistics: internal/app/stats.go, and the table of credit rates of credits.go.
pub mod Rolling
pub mod Window
pub mod Recent
pub mod Credits
pub mod Months
pub mod Thread
pub mod State
pub mod Threads
pub mod Usage
pub mod Snapshot
pub mod Reach
pub mod Sums
pub mod Invariant
pub mod Reached
pub mod AccountCosts
pub mod Agreement
pub mod Repriced
pub mod Kept
pub mod Live
