-- ===== src/Ring.antt =====
-- pkg/buffer/ring: the circular buffer, its operations and their proofs.
pub mod Defs
pub mod Reading
pub mod Growing
pub mod Contents
pub mod Removal
pub mod Delivery
pub mod Capacity
pub mod Growth
pub mod Placing
pub mod Writing
pub mod WritingByte
pub mod Transfer
pub mod Socket
pub mod Draining
pub mod DrainingRound
pub mod Receiving
pub mod DrainingAll
pub mod Filling
pub mod DeliveringByte
pub mod Making
mod Tests
