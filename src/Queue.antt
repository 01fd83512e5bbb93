-- ===== src/Queue.antt =====
-- src/queue/queue.ts: the persistent task queue, with src/queue/types.ts and the schedules of
-- src/schedule/types.ts.
pub mod Worker
pub mod Job
pub mod Push
pub mod Pop
pub mod Schedule
pub mod Settle
pub mod Admin
mod Tests
