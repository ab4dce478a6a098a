-- ===== src/Juvuln.antt =====
-- The manager of programs: api/juvuln.
pub mod Cache
