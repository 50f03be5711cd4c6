-- ===== src/Server.antt =====
-- The gates and registries of the server: internal/app/admission.go, refresh_operations.go,
-- context_mutex.go and active_websockets.go.
pub mod Admission
pub mod Refresh
pub mod Sockets
