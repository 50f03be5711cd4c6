-- ===== src/Account.antt =====
-- An account of the pool: internal/app/account.go, and what usage.go, credits.go and pool.go do to
-- one.
pub mod Window
pub mod Mode
pub mod Quota
pub mod State
pub mod Usage
pub mod Cooldown
pub mod Adoption
pub mod Resets
pub mod Cycle
