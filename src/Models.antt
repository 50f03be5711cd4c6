-- ===== src/Models.antt =====
-- The catalogue of models: internal/app/models.go.
pub mod Catalog
pub mod Allowed
