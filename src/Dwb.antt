-- ===== src/Dwb.antt =====
-- The delayed write buffer, src/dwb.rs.
pub mod Entry
pub mod Types
pub mod Nodes
pub mod Random
pub mod Buffer
pub mod Frame
