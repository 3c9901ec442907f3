-- ===== src/Hand/Search.antt =====
-- The search of `canHu` on a grouped hand: what it returns is a division of the hand, and where the
-- hand can be divided it returns one.
pub mod Runs
pub mod Sound
pub mod Complete
