-- ===== src/Ledger.antt =====
-- The credits that were routed through an account: internal/app/credits.go.
pub mod Credits
pub mod Totals
