-- ===== src/Intent.antt =====
-- The settings that a user writes, src/intent/: what an address, a range and a port must be.
pub mod Addresses
