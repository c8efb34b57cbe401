-- ===== src/Matching.antt =====
-- src/matching/: pairs the two endpoints' events by identity.
pub mod Pair
pub mod Slots
pub mod Blocks
pub mod Transactions
pub mod Accounts
pub mod Dispatch
pub mod Tests
