-- ===== src/Batch.antt =====
-- core/batch_store.py and core/batch_monitor.py: the task table of a batch spider with its state column,
-- the batch records, and the master that runs batch after batch on them.
pub mod Store
pub mod Claims
pub mod Counts
pub mod Lost
pub mod Monitor
pub mod Progress
pub mod Lock
