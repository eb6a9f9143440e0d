-- ===== src/Tests.antt =====
-- Concrete inputs, and the theorems at them.
pub mod Fixtures
pub mod DataPlane
pub mod Policies
pub mod ControlPlane
pub mod Writes
pub mod Agents
pub mod Btmp
pub mod Locks
pub mod Api
