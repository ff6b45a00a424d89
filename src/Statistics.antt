-- ===== src/Statistics.antt =====
-- internal/statistics/statistics.go: what the gateway counts of the queries it has run.
pub mod Words
pub mod Counts
pub mod Windows
pub mod Labels
pub mod Summaries
pub mod Collector
