-- ===== src/Refresh.antt =====
-- The refresh of an account's tokens: internal/app/account_refresh.go and account.go.
pub mod Finish
pub mod Flight
pub mod Callers
pub mod Invariant
