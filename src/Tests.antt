-- ===== src/Tests.antt =====
-- Runs of the components on small inputs; those of the task queues stand beside them.
pub mod Buffers
pub mod Filters
pub mod Pacing
pub mod Batches
pub mod Workers
pub mod Items
pub mod Proxies
pub mod Schedulers
pub mod Accounts
pub mod Caching
