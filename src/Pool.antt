-- ===== src/Pool.antt =====
-- pkg/pool: the pools of byte slices and of ring buffers. What a sync.Pool gives back is not
-- determined: it is an argument, one of the things that were put, or nothing.
pub mod ByteSlice
pub mod RingBuffer
pub mod Sizes
pub mod Recycling
mod Tests
