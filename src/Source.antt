-- ===== src/Source.antt =====
-- The package pkg/source: where events come from.
pub mod Watcher
pub mod Controller
pub mod CronJob
pub mod Registry
pub mod Tests
