-- ===== src/Memory.antt =====
-- The memory subsystem (memory/): byte chunks, the pool that hands them out, and the input and
-- output buffers of a connection.
pub mod Chunk
pub mod Pool
pub mod Buffer
