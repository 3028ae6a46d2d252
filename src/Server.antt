-- ===== src/Server.antt =====
-- main.go: the HTTP middleware and the settings.
pub mod Auth
pub mod Settings
