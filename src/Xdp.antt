-- ===== src/Xdp.antt =====
-- The data plane: what the agent writes to the maps of the XDP program (src/data_plane/xdp).
pub mod Capacity
pub mod Encoding
pub mod Local
pub mod Pending
pub mod BpfMap
pub mod Values
pub mod Apply
