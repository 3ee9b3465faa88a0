-- ===== src/Btbe/Settle.antt =====
-- `settle_dwb_entry` and `initialize_btbe` of src/btbe.rs, with the storing of buckets and nodes.
pub mod Rewrite
pub mod Route
pub mod Split
pub mod Halved
pub mod Steps
pub mod Insert
pub mod Ledger
pub mod Start
use snip20_reference_impl.Common.{
  ℕ, zero, suc, ◌+◌, true, false, Option, none, some, List, [], ◌∷◌, ◌==◌, if◌then◌else◌,
}
use snip20_reference_impl.Common.Bytes.{Bytes}
use snip20_reference_impl.Outcome.{Result, ok, set_index, out_of_fuel, store_bucket_to_branch}
use snip20_reference_impl.Outcome.{◌>>=◌ as bind}
use snip20_reference_impl.Word.{u64_max, add_word}
use snip20_reference_impl.Platform.{Platform}
use snip20_reference_impl.Dwb.Entry as Pending
use snip20_reference_impl.Dwb.Entry.{DwbEntry}
use snip20_reference_impl.State.{M, ◌>>=◌, ◌>>◌, pure, raise, lift, reads, load, modify, update}
use snip20_reference_impl.Btbe.Entry.{StoredEntry}
use snip20_reference_impl.Btbe.Types.{BtbeBucket, BitwiseTrieNode}
use snip20_reference_impl.Btbe.Bundles.{routes_to_right_node, save_hash_cache}
use snip20_reference_impl.Btbe.History.{from_dwb_entry, merge_dwb_entry}
use snip20_reference_impl.Btbe.Bucket.{new_bucket, add_entry, constant_time_find_address}
use snip20_reference_impl.Btbe.Trie.{node_bucket, locate_btbe_node}

unfoldable pub save_bucket : ℕ → BtbeBucket → M (Unit {0})
save_bucket id bucket = modify (λ s. record s { btbe_buckets = update s.btbe_buckets id bucket })

unfoldable pub save_node : ℕ → BitwiseTrieNode → M (Unit {0})
save_node id node = modify (λ s. record s { btbe_trie_nodes = update s.btbe_trie_nodes id node })

unfoldable pub set_and_save_bucket : BitwiseTrieNode → BtbeBucket → M (Unit {0})
unfolding save_bucket
set_and_save_bucket node bucket =
    if node.bucket == 0 then raise store_bucket_to_branch else save_bucket node.bucket bucket

-- `load(..).unwrap_or_default() + 1`
abbrev next_id : Option ℕ → Result ℕ
next_id none = ok 1
next_id (some count) = add_word u64_max count 1

-- `BitwiseTrieNode::new_leaf`
unfoldable pub new_leaf : BtbeBucket → M BitwiseTrieNode
unfolding save_bucket
new_leaf bucket = do
  bucket_id ← reads (λ s. next_id s.btbe_buckets_count)
  modify (λ s. record s { btbe_buckets_count = some bucket_id })
  save_bucket bucket_id bucket
  pure (record { left = 0; right = 0; bucket = bucket_id })

abbrev leaf : ℕ → BitwiseTrieNode
leaf bucket_id = record { left = 0; right = 0; bucket = bucket_id }

module _ (p : Platform) where
  -- One entry of a full bucket, to the left or to the right; the added flag is not looked at.
  route_entry : Bytes → ℕ → StoredEntry → BtbeBucket × BtbeBucket → Result (BtbeBucket × BtbeBucket)
  route_entry secret bit_pos entry (left, right) =
      bind (routes_to_right_node p entry bit_pos secret) (elim [
        | true ↦ bind (add_entry p right entry) (λ r. ok (left, r.1))
        | false ↦ bind (add_entry p left entry) (λ l. ok (l.1, right))
      ])

  unfoldable pub route_entries :
      Bytes → ℕ → List StoredEntry → BtbeBucket × BtbeBucket → Result (BtbeBucket × BtbeBucket)
  unfolding route_entry
  route_entries secret bit_pos [] sides = ok sides
  route_entries secret bit_pos (e ∷ es) sides =
      bind (route_entry secret bit_pos e sides) (λ sides'. route_entries secret bit_pos es sides')

  -- A full leaf becomes a branch with two leaves, of which the left one takes over its bucket id:
  -- the two nodes with their ids and buckets.
  unfoldable pub split_node :
      Bytes
      → BitwiseTrieNode
      → ℕ
      → BtbeBucket
      → ℕ
      → M ((BitwiseTrieNode × ℕ × BtbeBucket) × (BitwiseTrieNode × ℕ × BtbeBucket))
  unfolding route_entries save_bucket save_node
  split_node secret node node_id bucket bit_pos = do
    left_new ← lift (new_bucket p)
    right_new ← lift (new_bucket p)
    sides ← lift (route_entries secret bit_pos bucket.entries (left_new, right_new))
    save_bucket node.bucket sides.0
    right_bucket_id ← reads (λ s. next_id s.btbe_buckets_count)
    save_bucket right_bucket_id sides.1
    modify (λ s. record s { btbe_buckets_count = some right_bucket_id })
    left_id ← reads (λ s. next_id s.btbe_trie_nodes_count)
    right_id ← lift (add_word u64_max left_id 1)
    modify (λ s. record s { btbe_trie_nodes_count = some right_id })
    save_node left_id (leaf node.bucket)
    save_node right_id (leaf right_bucket_id)
    save_node node_id (record { left = left_id; right = right_id; bucket = 0 })
    pure ((leaf node.bucket, left_id, sides.0), (leaf right_bucket_id, right_id, sides.1))

  -- The `loop` of `settle_dwb_entry`: split full leaves on the way of the entry, then add it.
  unfoldable pub insert_loop :
      ℕ → Bytes → StoredEntry → BitwiseTrieNode → ℕ → BtbeBucket → ℕ → M (Unit {0})
  insert_loop zero secret entry node node_id bucket bit_pos = raise out_of_fuel
  insert_loop (suc fuel) secret entry node node_id bucket bit_pos = do
    added ← lift (add_entry p bucket entry)
    elim (added.0) [
      | true ↦ set_and_save_bucket node added.1
      | false ↦ (do
        halves ← split_node secret node node_id bucket bit_pos
        right ← lift (routes_to_right_node p entry bit_pos secret)
        let side = if right then halves.1 else halves.0
        insert_loop fuel secret entry side.0 side.1 side.2 (bit_pos + 1))
    ]

-- Each round but the last reads a bit of a hash of 32 bytes, of which there are 256.
abbrev pub insert_fuel : ℕ
insert_fuel = 258

module _ (p : Platform) where
  unfoldable pub settle_found :
      DwbEntry → Option ℕ → BitwiseTrieNode → BtbeBucket → ℕ → StoredEntry → M (Unit {0})
  settle_found dwb_entry spent node bucket idx entry = do
    merged ← merge_dwb_entry dwb_entry spent entry
    entries ← lift (set_index bucket.entries idx merged)
    set_and_save_bucket node (record bucket { entries = entries })

  unfoldable pub settle_new :
      DwbEntry → Option ℕ → BitwiseTrieNode → ℕ → BtbeBucket → ℕ → M (Unit {0})
  settle_new dwb_entry spent node node_id bucket bit_pos = do
    created ← from_dwb_entry dwb_entry spent
    cached ← reads (save_hash_cache p created)
    secret ← load (λ s. s.internal_secret_sensitive)
    insert_loop p insert_fuel secret cached node node_id bucket bit_pos

  unfoldable pub settle_dwb_entry : DwbEntry → Option ℕ → M (Unit {0})
  unfolding settle_found settle_new
  settle_dwb_entry dwb_entry spent = do
    let address = Pending.recipient dwb_entry
    located ← reads (locate_btbe_node p address)
    bucket ← reads (node_bucket located.0)
    found ← lift (constant_time_find_address p bucket address)
    elim found [
      | some (idx, entry) ↦ settle_found dwb_entry spent located.0 bucket idx entry
      | none ↦ settle_new dwb_entry spent located.0 located.1 bucket located.2
    ]

  unfoldable pub initialize_btbe : M (Unit {0})
  unfolding save_node
  initialize_btbe = do
    bucket ← lift (new_bucket p)
    node ← new_leaf bucket
    modify (λ s. record s { btbe_trie_nodes_count = some 1 })
    save_node 1 node
