-- ===== src/History.antt =====
-- The per-caller fetch history of history.go: the records and how two of them merge (Record), the
-- table of one caller (Table), the key that separates callers (Key), and the tool that lists the
-- sources (Sources).
pub mod Record
pub mod Table
pub mod Callers
pub mod Key
pub mod Sources
mod Tests
