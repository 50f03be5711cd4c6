-- ===== src/Admin.antt =====
-- The administration pages: the limit of logins in internal/app/admin_auth.go.
pub mod Login
