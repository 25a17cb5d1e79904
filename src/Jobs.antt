-- ===== src/Jobs.antt =====
-- src/jobs and src/worker: the queue of ingestion jobs and the loop that works through it.
pub mod Queue
pub mod Worker
pub mod Conservation
pub mod Tests
