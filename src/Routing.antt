-- ===== src/Routing.antt =====
-- Choosing an account for a request: internal/app/pool.go, credit_routing.go, routing_retry.go and
-- logging.go.
pub mod Candidate
pub mod Select
pub mod Route
pub mod Status
