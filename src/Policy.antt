-- ===== src/Policy.antt =====
-- The single firewall policy: its model, its validation, and its compilation for the data plane
-- (src/policy).
pub mod Model
pub mod Validate
pub mod Country
pub mod Compile
pub mod Rows
