-- ===== src/Conn/Receive/Transfer.antt =====
-- A file that arrives in blocks: the loop of `Read` from packet to packet.
pub mod Packet
pub mod File
pub mod Whole
