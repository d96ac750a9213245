-- ===== src/Http.antt =====
-- cores/http.go: the redirect handler and the management handlers.
pub mod Types
pub mod Manage
pub mod Redirect
pub mod Auth
pub mod Answers
pub mod Lawful
