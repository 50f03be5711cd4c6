-- ===== src/Pool.antt =====
-- The pool of accounts and its store: internal/app/pool.go and pool_store.go.
pub mod Changes
pub mod Reconcile
pub mod Changed
pub mod Reconciled
