-- ===== src/Intelligence.antt =====
-- Threat intelligence and country lists (src/intelligence).
pub mod Lock
