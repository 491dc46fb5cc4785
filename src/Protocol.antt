-- ===== src/Protocol.antt =====
-- src/protocol.rs: the wire format. The children follow the file's own sections.
pub mod Stream
pub mod Varint
pub mod Subgroup
pub mod Extension
pub mod Object
pub mod Datagram
pub mod Tests
