-- ===== src/Chain.antt =====
-- Blockchain/src/shared: what the chain layer shares. A text is the list of its character codes.
pub mod Numerals
pub mod Money
pub mod Tests
