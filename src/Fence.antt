-- ===== src/Fence.antt =====
-- The signed fence around fetched text, of fence.go: the escapes (Escape), what is signed
-- (Signing), and the note on what was removed (Note).
pub mod Escape
pub mod Signing
pub mod Note
pub mod Cdata
pub mod Assemble
mod Tests
