-- ===== src/Host.antt =====
-- The host, amp/host/host.go.
pub mod Apps
pub mod LibService
pub mod Link
pub mod Login
pub mod Session
pub mod Tcp
