-- ===== src/Time.antt =====
-- The directory time: the timer of tasks, the map behind a lock, and the wheel of idle connections.
pub mod Timer
pub mod ThreadSafeHashMap
pub mod ConnectionTimeoutManager
