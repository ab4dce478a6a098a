-- ===== src/Middleware.antt =====
-- middleware: the handlers that stand before the REST handlers.
pub mod Scope
pub mod Validator
