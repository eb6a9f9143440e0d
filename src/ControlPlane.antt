-- ===== src/ControlPlane.antt =====
-- src/control_plane/api over the database: what its handlers store.
pub mod Validation
pub mod Database
pub mod TempBanInput
pub mod TempBans
