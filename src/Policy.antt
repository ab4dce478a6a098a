-- ===== src/Policy.antt =====
-- Access policies (internal/services/policy*.go and the access queries).
pub mod Resource
pub mod Cover
pub mod Rule
pub mod Check
pub mod Service
