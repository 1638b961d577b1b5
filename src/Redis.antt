-- ===== src/Redis.antt =====
-- The Redis server, which the repository only calls: its sorted sets as an interface of commands
-- with the laws that the code relies on, and an implementation that shows that they can be met.
pub mod SortedSet
pub mod Rows
pub mod Reference
