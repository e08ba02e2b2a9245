-- ===== src/Shoutcast.antt =====
-- The shoutcast client, package amp.app.shoutcast.
pub mod Stream
