-- ===== src/Pricing.antt =====
-- The usage of responses and what it costs: internal/app/pricing.go and api_key_costs.go, and
-- `canonicalServiceTier` of models.go.
pub mod Usage
pub mod Tier
pub mod Estimate
pub mod Matching
pub mod Chosen
