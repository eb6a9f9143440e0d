-- ===== src/Btmp.antt =====
-- tools/btmp-monitor: a daemon that reads failed logins from /var/log/btmp, counts them by address in
-- a sliding window, and submits temporary bans to the API of the control plane.
pub mod Record
pub mod Read
pub mod Config
pub mod Counts
pub mod Api
pub mod Monitor
