-- ===== src/TaskQueue.antt =====
-- core/task_queue.py: the in-process priority queue, and the Redis queue with leases.
pub mod Interface
pub mod Scripts
pub mod Leased
pub mod Keys
pub mod Leases
pub mod Operations
pub mod History
pub mod Recovery
pub mod Memory
pub mod Tests
