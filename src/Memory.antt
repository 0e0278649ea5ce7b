-- ===== src/Memory.antt =====
-- The Markdown memory of src/autobugfix/memory: MemoryStore and MemoryService. A file that a call wrote
-- before it raised stays written. The text of a packet, of a digest and of the maintainer's answer is
-- a parameter, and so is the date in a proposal's identifier.
pub mod Service
pub mod Active
pub mod Ticks
pub mod Tests
