-- ===== src/Timeseries.antt =====
-- TimeseriesService of internal/services/timeseries.go.
pub mod Rollups
pub mod Points
pub mod Update
pub mod Query
pub mod Truncate
pub mod Aggregate
pub mod Single
pub mod Multi
