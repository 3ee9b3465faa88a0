-- ===== src/Btbe/Types.antt =====
-- The stored data of src/btbe.rs: buckets of entries and the nodes of the trie.
use snip20_reference_impl.Common.{ℕ, List}
use snip20_reference_impl.Btbe.Entry.{StoredEntry}

-- `capacity` counts the places that are left.
pub record BtbeBucket : Type 0 where
  pub capacity : ℕ
  pub entries : List StoredEntry

-- A leaf has a bucket id, and a branch the ids of two nodes and the bucket id 0.
pub record BitwiseTrieNode : Type 0 where
  pub left : ℕ
  pub right : ℕ
  pub bucket : ℕ
