-- ===== src/Datasets.antt =====
-- The uploads of datasets, internal/services/dataset_upload.go.
pub mod World
pub mod Steps
pub mod Checks
pub mod Uploads
pub mod Assemble
pub mod RoundTrip
