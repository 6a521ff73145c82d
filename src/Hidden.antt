-- ===== src/Hidden.antt =====
-- The removal of hidden elements of hidden.go: what an inline style says (Style), and the walk over
-- the parsed document (Dom).
pub mod Style
pub mod Dom
mod Tests
