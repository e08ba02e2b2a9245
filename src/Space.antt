-- ===== src/Space.antt =====
-- amp/apps/amp.app.space/app.spaces.db.go: the cells of a space in its database.
pub mod Cell
pub mod Serving
