-- ===== src/Conn.antt =====
-- connection.go: what a connection keeps of the bytes that come in, and of those that go out.
pub mod Inbound
pub mod Stream
pub mod Consuming
pub mod Reading
pub mod Outbound
pub mod Telling
pub mod Vectored
pub mod Sending
pub mod Flushing
mod Tests
