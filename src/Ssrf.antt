-- ===== src/Ssrf.antt =====
-- The address policy of ssrf.go: which addresses are public (Address), the operator's allow-lists
-- (Acl), and the dialler, the redirect check and the proxy choice that apply them (Dial).
pub mod Address
pub mod Acl
pub mod Dial
mod Tests
