-- ===== src/Btbe.antt =====
-- The bitwise trie of bucketed entries, src/btbe.rs.
pub mod Entry
pub mod Types
pub mod Bundles
pub mod History
pub mod Bucket
pub mod Trie
pub mod Settle
pub mod Frame
