-- ===== src/Workqueue.antt =====
-- The package pkg/workqueue: sets, metrics, the queue with its de-duplication, and what is built
-- on it.
pub mod Items
pub mod Queue
pub mod Metrics
pub mod RateLimiter
pub mod Indexer
pub mod DelayingQueue
pub mod Parallelizer
pub mod WaitingLoop
pub mod PriorityQueue
pub mod RateLimitingQueue
mod Tests
