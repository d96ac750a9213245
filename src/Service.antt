-- ===== src/Service.antt =====
-- cores/service.go: `ShortLinkService`, over the interfaces of its backends.
pub mod State
pub mod Keeps
pub mod Edit
pub mod Generate
pub mod Expire
pub mod Rebuild
pub mod Query
pub mod Close
