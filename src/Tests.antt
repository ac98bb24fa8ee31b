-- ===== src/Tests.antt =====
-- Tests of the definitions on inputs from the repository's test programs, and the theorems applied
-- at concrete inputs.
mod Core
mod Books
mod Messages
mod Sessions
mod Retransmission
mod Packets
mod Network
mod Streams
