-- ===== src/Ingest.antt =====
-- The ingestion service insamlare: internal/insamlare.
pub mod Topic
pub mod Writer
pub mod Config
pub mod Fixed
pub mod Route
pub mod Runtime
pub mod Template
