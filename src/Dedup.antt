-- ===== src/Dedup.antt =====
-- The fingerprint filters of dedup/: the exact set, the Bloom filter in the process, its layered form,
-- and the layered form in Redis.
pub mod Bits
pub mod Lite
pub mod Bloom
pub mod Scalable
pub mod RedisBloom
