-- ===== src/Malgomaj.antt =====
-- api/malgomaj: the executor of programs.
pub mod Cache
pub mod Locks
pub mod Task
