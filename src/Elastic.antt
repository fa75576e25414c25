-- ===== src/Elastic.antt =====
-- pkg/buffer/elastic: the buffers of a connection, over the ring buffer and the linked list.
pub mod RingBuffer
pub mod Buffer
pub mod Held
pub mod Storing
pub mod Taking
pub mod Showing
mod Tests
