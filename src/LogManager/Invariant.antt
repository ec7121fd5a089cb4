-- ===== src/LogManager/Invariant.antt =====
-- What holds of a log manager and its threads between two calls, as long as the log sequence stays
-- clear of the wrap of its 32-bit index.
pub mod Collect
pub mod Take
pub mod Produce
pub mod Consume
pub mod Init
pub mod Steps
