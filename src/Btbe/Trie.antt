-- ===== src/Btbe/Trie.antt =====
-- The trie of src/btbe.rs: a node's bucket, the walk from the root to the leaf of an address, and
-- what is read there.
pub mod Locate
pub mod Search
pub mod Invariant
use snip20_reference_impl.Common.{
  ℕ, zero, suc, ◌+◌, ◌-◌, ◌*◌, ◌/◌, ◌%◌, ◌^◌, Bool, true, false, Option, none, some, leb, ltb, ◌==◌,
  if◌then◌else◌,
}
use snip20_reference_impl.Common.Bytes.{Bytes}
use snip20_reference_impl.Outcome.{
  Result, ok, err, ◌>>=◌, ◌>>◌, or_err, index, not_found, out_of_fuel, load_bucket_of_branch,
}
use snip20_reference_impl.Word.{u32_max, add_word, sub_word}
use snip20_reference_impl.Platform.{Platform}
use snip20_reference_impl.Dwb.Types.{TxBundle}
use snip20_reference_impl.State.{Storage}
use snip20_reference_impl.Btbe.Types.{BtbeBucket, BitwiseTrieNode}
use snip20_reference_impl.Btbe.Entry.{StoredEntry, balance, history_len}
use snip20_reference_impl.Btbe.Bundles.{bucketing_salt_bytes, bit_of_byte, get_tx_bundle_at}
use snip20_reference_impl.Btbe.Bucket.{constant_time_find_address}

-- `BitwiseTrieNode::bucket`
unfoldable pub node_bucket : BitwiseTrieNode → Storage → Result BtbeBucket
node_bucket node s =
    if node.bucket == 0
    then err load_bucket_of_branch
    else or_err (s.btbe_buckets node.bucket) not_found

unfoldable pub load_node : ℕ → Storage → Result BitwiseTrieNode
load_node id s = or_err (s.btbe_trie_nodes id) not_found

-- The `while` loop of `locate_btbe_node`: the node, its id and the bit position.
unfoldable pub locate_loop :
    ℕ → Bytes → BitwiseTrieNode → ℕ → ℕ → Storage → Result (BitwiseTrieNode × ℕ × ℕ)
unfolding load_node
locate_loop zero hash node node_id bit_pos s = err out_of_fuel
locate_loop (suc fuel) hash node node_id bit_pos s = elim (node.bucket == 0) [
  | false ↦ ok (node, node_id, bit_pos)
  | true ↦ (do
    byte ← index hash (bit_pos / 8)
    let next_id = if bit_of_byte byte bit_pos == 0 then node.left else node.right
    next ← load_node next_id s
    locate_loop fuel hash next next_id (bit_pos + 1) s)
]

-- A hash of 32 bytes has 256 bits, and a read behind them panics: the loop ends by then.
abbrev pub locate_fuel : ℕ
locate_fuel = 257

module _ (p : Platform) where
  unfoldable pub locate_btbe_node : Bytes → Storage → Result (BitwiseTrieNode × ℕ × ℕ)
  locate_btbe_node address s = do
    secret ← or_err s.internal_secret_sensitive not_found
    hash ← p.hkdf_sha_256 bucketing_salt_bytes secret address 32
    root ← load_node 1 s
    locate_loop locate_fuel hash root 1 0 s

  unfoldable pub stored_entry : Bytes → Storage → Result (Option StoredEntry)
  stored_entry account s = do
    located ← locate_btbe_node account s
    bucket ← node_bucket located.0 s
    found ← constant_time_find_address p bucket account
    ok (elim found [ none ↦ none | some (idx, entry) ↦ some entry ])

  unfoldable pub stored_balance : Bytes → Storage → Result ℕ
  stored_balance address s = do
    found ← stored_entry address s
    ok (elim found [ none ↦ 0 | some entry ↦ balance entry ])

-- The binary search of `find_start_bundle` for the bundle that holds transaction `start_idx`.
unfoldable pub search_loop :
    ℕ → StoredEntry → ℕ → ℕ → ℕ → Storage → Result (Option (ℕ × TxBundle × ℕ))
search_loop zero e start_idx left right s = err out_of_fuel
search_loop (suc fuel) e start_idx left right s = elim (leb left right) [
  | false ↦ ok none
  | true ↦ (do
    sum ← add_word u32_max left right
    let mid = sum / 2
    mid_bundle ← get_tx_bundle_at e mid s
    elim (leb mid_bundle.offset start_idx) [
      | false ↦ (do right' ← sub_word mid 1; search_loop fuel e start_idx left right' s)
      | true ↦ (do
        bundle_end ← add_word u32_max mid_bundle.offset mid_bundle.list_len
        elim (ltb start_idx bundle_end) [
          | true ↦ (do
            start_at ← sub_word (mid_bundle.list_len - (start_idx - mid_bundle.offset)) 1
            ok (some (mid, mid_bundle, start_at)))
          | false ↦ (do left' ← add_word u32_max mid 1; search_loop fuel e start_idx left' right s)
        ])
    ])
]

module _ (p : Platform) where
  unfoldable pub find_start_bundle : Bytes → ℕ → Storage → Result (Option (ℕ × TxBundle × ℕ))
  find_start_bundle account start_idx s = do
    located ← locate_btbe_node p account s
    bucket ← node_bucket located.0 s
    found ← constant_time_find_address p bucket account
    elim found [
      | none ↦ ok none
      | some (idx, entry) ↦
          search_loop (history_len entry + 2) entry start_idx 0 (history_len entry) s
    ]
