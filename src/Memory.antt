-- ===== src/Memory.antt =====
-- nodes/memory/memory.service.ts and memory.repository.ts: documents by path. A text is the list of its
-- UTF-16 units. The table is a list of rows in the order of their creation; ids are drawn from a counter.
-- A call runs without another's writes in between; what the database may reject is left out.
pub mod Paths
pub mod Store
pub mod Documents
pub mod Joined
pub mod Roundtrip
pub mod Resolve
pub mod Drawn
pub mod Appended
pub mod Pieces
pub mod Replaced
pub mod Service
pub mod Subtree
mod Tests
