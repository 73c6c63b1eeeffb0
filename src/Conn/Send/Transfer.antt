-- ===== src/Conn/Send/Transfer.antt =====
-- A file that is sent in blocks: the loop of `Write` from block to block.
pub mod Block
pub mod Round
pub mod Whole
pub mod Filling
pub mod Closing
pub mod Written
pub mod Copied
