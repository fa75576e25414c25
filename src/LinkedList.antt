-- ===== src/LinkedList.antt =====
-- pkg/buffer/linkedlist: the buffer over a linked list of byte slices.
pub mod Defs
pub mod Transfer
pub mod Shape
pub mod Contents
pub mod Reading
pub mod Discarding
pub mod Draining
pub mod Peeking
pub mod Pushing
mod Tests
