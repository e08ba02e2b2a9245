-- ===== src/Assets.antt =====
-- The asset server, amp/assets.
pub mod Ids
pub mod Server
