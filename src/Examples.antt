-- ===== src/Examples.antt =====
-- The theorems at concrete inputs, and tests of the definitions.
mod Aggregate
mod Policies
mod Datasets
mod Config
mod Decisions
mod Users
mod Ingest
mod Query
mod Route
mod Workforce
mod Juvuln
mod Updates
mod Writer
mod Timeseries
mod PolicyService
mod Middleware
mod Multi
mod Malgomaj
