-- ===== src/Memory.antt =====
-- ext/memx: the in-memory implementations of the four interfaces.
pub mod Pool
pub mod Cache
pub mod Stats
pub mod Repo
