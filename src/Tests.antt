-- ===== src/Tests.antt =====
-- The theorems on concrete packets, rings, texts and errors, one child for each part of the code.
mod Wire
mod Rings
mod Texts
mod Failures
mod Transfers
mod Peers
mod Together
mod Handled
mod Whole
mod Settings
