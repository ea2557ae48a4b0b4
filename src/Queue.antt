-- ===== src/Queue.antt =====
-- database.py and queue_worker.py: the queue of group and message jobs, which one worker thread
-- carries out in turn.
pub mod Jobs
pub mod Control
pub mod Worker
