-- ===== src/Claims.antt =====
-- Provisional routes: internal/app/route_claims.go.
pub mod Registry
pub mod Select
pub mod Lifecycle
pub mod Keys
pub mod Invariant
pub mod Preservation
pub mod Selection
pub mod Pinning
pub mod Invalidation
pub mod Handles
pub mod Barriers
pub mod Reach
