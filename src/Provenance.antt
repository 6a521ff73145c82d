-- ===== src/Provenance.antt =====
-- The guard of provenance.go against addresses that no result ever showed: the set of shown
-- addresses (Seen), what an address may carry (Data), the confirmations of confirm.go (Confirm), and the
-- decision about one fetch (Check).
pub mod Confirm
pub mod Data
pub mod Seen
pub mod Check
mod Tests
