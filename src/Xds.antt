-- ===== src/Xds.antt =====
-- The control plane's xDS service.
pub mod RuntimeCidrs
pub mod Refresh
