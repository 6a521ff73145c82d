-- ===== src/Content.antt =====
-- What the relay does to fetched text: the removal of invisible characters of invisible.go
-- (Invisible), and the response windows of fetch.go (Paginate).
pub mod Invisible
pub mod Paginate
mod Tests
