-- ===== src/Btbe/Settle/Steps.antt =====
-- The steps of `settle_dwb_entry` and of its loop, for each outcome of the parts.
use snip20_reference_impl.Common.{
  ℕ, suc, ◌+◌, ◌/◌, ◌<◌, ◌≤◌, ◌≡◌, ◌≢◌, refl, Bool, true, false, ◌⊎◌, inl, inr, some, List, [], ◌∷◌,
  arith, Bool-cases, get_elem?_past, leb, if◌then◌else◌, Option, none, length, set,
}
use snip20_reference_impl.Common.Bytes.{Bytes, copy_into_nothing}
use snip20_reference_impl.Outcome.{Error, ok, err, overflow, index_out_of_bounds}
use snip20_reference_impl.Word.{u64_max}
use snip20_reference_impl.Platform.{Platform, Documented}
use snip20_reference_impl.State.{Storage, update}
use snip20_reference_impl.Btbe.Types.{BtbeBucket, BitwiseTrieNode}
use snip20_reference_impl.Btbe.Entry.{StoredEntry, address}
use snip20_reference_impl.Btbe.Bundles.{routes_to_right_node, bucketing_salt_bytes, save_hash_cache}
use snip20_reference_impl.Btbe.Bucket.{new_bucket, add_entry, constant_time_find_address}
use snip20_reference_impl.Btbe.Trie.Invariant.{IsTrie}
use snip20_reference_impl.Btbe.Settle.{
  leaf, route_entry, route_entries, split_node, insert_loop, set_and_save_bucket, save_bucket,
  save_node, settle_dwb_entry, settle_found, settle_new, insert_fuel,
}
use snip20_reference_impl.Btbe.Settle.Route.{pick}
use snip20_reference_impl.Btbe.Settle.Split.{Splits}
use snip20_reference_impl.Dwb.Entry.{DwbEntry}
use snip20_reference_impl.Btbe.History.{merge_dwb_entry, from_dwb_entry}
use snip20_reference_impl.Btbe.Trie.{node_bucket, locate_btbe_node}
use snip20_reference_impl.Dwb.Entry as Pending

module _ {p : Platform} {secret : Bytes} {s : Storage} (t : IsTrie p secret s)
    (node : BitwiseTrieNode) (id pos : ℕ) (b : BtbeBucket) {blank : BtbeBucket}
    {sides : BtbeBucket × BtbeBucket} where
  -- With the entries routed, a split fails only when an id does not fit.
  pub split_node_exact :
      new_bucket p ≡ ok blank
      → route_entries p secret pos b.entries (blank, blank) ≡ ok sides
      → (split_node p secret node id b pos s ≡ err overflow)
        ⊎ ((s' : Storage) × Splits s s' node id t.nodes t.buckets sides
            × (split_node p secret node id b pos s
                ≡ ok (
                  (
                    (leaf node.bucket, t.nodes + 1, sides.0),
                    (leaf (t.buckets + 1), t.nodes + 2, sides.1),
                  ),
                  s',
                )))
  unfolding split_node save_bucket save_node
  split_node_exact made routed =
      let nc = t.nodes_counted in
      let bc = t.buckets_counted in
      elim (Bool-cases (leb (t.buckets + 1) u64_max)) [
        | inr over ↦ inl (ground (arith, made, routed, bc, over))
        | inl bucket_fits ↦ elim (Bool-cases (leb (t.nodes + 1) u64_max)) [
          | inr over ↦ inl (ground (arith, made, routed, bc, bucket_fits, nc, over))
          | inl left_fits ↦ elim (Bool-cases (leb (t.nodes + 1 + 1) u64_max)) [
            | inr over ↦ inl (ground (arith, made, routed, bc, bucket_fits, nc, left_fits, over))
            | inl right_fits ↦ inr (
              record s {
                btbe_buckets =
                    update (update s.btbe_buckets node.bucket sides.0) (t.buckets + 1) sides.1;
                btbe_buckets_count = some (t.buckets + 1);
                btbe_trie_nodes =
                    update
                      (update (update s.btbe_trie_nodes (t.nodes + 1) (leaf node.bucket))
                        (t.nodes + 2) (leaf (t.buckets + 1)))
                      id (record { left = t.nodes + 1; right = t.nodes + 2; bucket = 0 });
                btbe_trie_nodes_count = some (t.nodes + 2);
              },
              record { part = refl },
              ground (arith, made, routed, bc, bucket_fits, nc, left_fits, right_fits),
            )
          ]
        ]
      ]

module _ (p : Platform) (doc : Documented p) (secret : Bytes) where
  -- No hash has a bit at position 256.
  pub routes_behind :
      (e : StoredEntry) (pos : ℕ)
      → 256 ≤ pos
      → routes_to_right_node p e pos secret ≡ err index_out_of_bounds
  unfolding routes_to_right_node
  routes_behind e pos behind =
      let (hash, hashed, n) = doc.hkdf_sha_256_total bucketing_salt_bytes secret (address e) in
      let past = get_elem?_past hash (pos / 8) (omega arith) in ground (arith, hashed, past)

  pub route_entries_behind :
      (es : List StoredEntry) (pos : ℕ) (sides : BtbeBucket × BtbeBucket)
      → 256 ≤ pos
      → (es ≡ []) ⊎ (route_entries p secret pos es sides ≡ err index_out_of_bounds)
  unfolding route_entries route_entry
  route_entries_behind [] pos sides behind = inl refl
  route_entries_behind (e ∷ es) pos sides behind = inr (rw (routes_behind e pos behind) refl)

  pub add_entry_full :
      (b : BtbeBucket) (e : StoredEntry) → b.capacity ≡ 0 → add_entry p b e ≡ ok (false, b)
  unfolding add_entry
  add_entry_full b e h = rw h refl

  pub split_fails :
      (node : BitwiseTrieNode) (id pos : ℕ) (b : BtbeBucket) (s : Storage) {blank : BtbeBucket}
      {x : Error}
      → new_bucket p ≡ ok blank
      → route_entries p secret pos b.entries (blank, blank) ≡ err x
      → split_node p secret node id b pos s ≡ err x
  unfolding split_node
  split_fails node id pos b s made bad = ground (arith, made, bad)

  pub route_nothing :
      (pos : ℕ) (sides : BtbeBucket × BtbeBucket) → route_entries p secret pos [] sides ≡ ok sides
  unfolding route_entries
  route_nothing pos sides = refl

  module _ (fuel : ℕ) (e : StoredEntry) (node : BitwiseTrieNode) (id pos : ℕ) (b : BtbeBucket)
      (s : Storage) (full : b.capacity ≡ 0) where
    pub insert_fails :
        {x : Error}
        → split_node p secret node id b pos s ≡ err x
        → insert_loop p (suc fuel) secret e node id b pos s ≡ err x
    unfolding insert_loop
    insert_fails q = ground (arith, add_entry_full b e full, q)

    pub insert_descends :
        (c : Bool) (left right : BitwiseTrieNode) (left_id right_id : ℕ)
        (sides : BtbeBucket × BtbeBucket) {s1 : Storage}
        → split_node p secret node id b pos s
          ≡ ok (((left, left_id, sides.0), (right, right_id, sides.1)), s1)
        → routes_to_right_node p e pos secret ≡ ok c
        → insert_loop p (suc fuel) secret e node id b pos s
          ≡ insert_loop p fuel secret e
              (if c then right else left)
              (if c then right_id else left_id)
              (pick c sides)
              (suc pos)
              s1
    unfolding insert_loop
    insert_descends true left right left_id right_id sides q g =
        ground (arith, add_entry_full b e full, q, g)
    insert_descends false left right left_id right_id sides q g =
        ground (arith, add_entry_full b e full, q, g)

    pub insert_stops :
        {halves : (BitwiseTrieNode × ℕ × BtbeBucket) × (BitwiseTrieNode × ℕ × BtbeBucket)}
        {s1 : Storage} {x : Error}
        → split_node p secret node id b pos s ≡ ok (halves, s1)
        → routes_to_right_node p e pos secret ≡ err x
        → insert_loop p (suc fuel) secret e node id b pos s ≡ err x
    unfolding insert_loop
    insert_stops q g = ground (arith, add_entry_full b e full, q, g)

-- The cache of no bytes is no change.
pub save_hash_cache-eq :
    (p : Platform) (doc : Documented p) (e : StoredEntry) (s : Storage) {secret : Bytes}
    → s.internal_secret_sensitive ≡ some secret
    → save_hash_cache p e s ≡ ok e
unfolding save_hash_cache
save_hash_cache-eq p doc e s {secret} h =
    let (hash, hashed, n) = doc.hkdf_sha_256_total bucketing_salt_bytes secret (address e) in
    ground (arith, h, hashed, copy_into_nothing 32 e)

module _ (p : Platform) (d : DwbEntry) (spent : Option ℕ) (s : Storage) {node : BitwiseTrieNode}
    {id pos : ℕ} {b : BtbeBucket}
    (located : locate_btbe_node p (Pending.recipient d) s ≡ ok (node, id, pos))
    (leaf_n : node.bucket ≢ 0) (loaded : s.btbe_buckets node.bucket ≡ some b) where
  pub found_runs :
      {i : ℕ} {e e' : StoredEntry} {s1 : Storage}
      → constant_time_find_address p b (Pending.recipient d) ≡ ok (some (i, e))
      → i < length b.entries
      → merge_dwb_entry d spent e s ≡ ok (e', s1)
      → settle_dwb_entry p d spent s
        ≡ ok (
          tt,
          record s1 {
            btbe_buckets =
                update s1.btbe_buckets node.bucket (record b { entries = set b.entries i e' });
          },
        )
  unfolding settle_dwb_entry settle_found node_bucket set_and_save_bucket save_bucket
  found_runs found fits merged = ground (arith, located, loaded, found, merged)

  pub found_fails :
      {i : ℕ} {e : StoredEntry} {x : Error}
      → constant_time_find_address p b (Pending.recipient d) ≡ ok (some (i, e))
      → merge_dwb_entry d spent e s ≡ err x
      → settle_dwb_entry p d spent s ≡ err x
  unfolding settle_dwb_entry settle_found node_bucket
  found_fails found merged = ground (arith, located, loaded, found, merged)

  pub new_runs :
      {e e' : StoredEntry} {s1 : Storage} {secret : Bytes}
      → constant_time_find_address p b (Pending.recipient d) ≡ ok none
      → from_dwb_entry d spent s ≡ ok (e, s1)
      → save_hash_cache p e s1 ≡ ok e'
      → s1.internal_secret_sensitive ≡ some secret
      → settle_dwb_entry p d spent s ≡ insert_loop p insert_fuel secret e' node id b pos s1
  unfolding settle_dwb_entry settle_new node_bucket
  new_runs found made cached sec = ground (arith, located, loaded, found, made, cached, sec)

  pub new_fails :
      {x : Error}
      → constant_time_find_address p b (Pending.recipient d) ≡ ok none
      → from_dwb_entry d spent s ≡ err x
      → settle_dwb_entry p d spent s ≡ err x
  unfolding settle_dwb_entry settle_new node_bucket
  new_fails found made = ground (arith, located, loaded, found, made)
