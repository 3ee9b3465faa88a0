-- ===== src/Btbe/Settle/Insert.antt =====
-- The `loop` of `settle_dwb_entry`: where the entry comes to stand, and what it does to the others.
use snip20_reference_impl.Common.{
  ℕ, zero, suc, ◌+◌, ◌<◌, ◌≤◌, ◌≡◌, ◌≢◌, refl, sym, ◌∙◌, true, false, ◌⊎◌, inl, inr, some,
  some-injective, List, [], ◌∷◌, arith, Bool-cases, ◌==◌, ltb,
}
use snip20_reference_impl.Common.Bytes.{Bytes}
use snip20_reference_impl.Outcome.{Result, ok, err, overflow, index_out_of_bounds}
use snip20_reference_impl.Platform.{Platform, Documented}
use snip20_reference_impl.State.{Storage, update}
use snip20_reference_impl.Btbe.Types.{BtbeBucket, BitwiseTrieNode}
use snip20_reference_impl.Btbe.Entry.{StoredEntry, address, impossible_addr}
use snip20_reference_impl.Btbe.Entry.Fields.{IsStoredEntry}
use snip20_reference_impl.Btbe.Bundles.{bucketing_salt_bytes}
use snip20_reference_impl.Btbe.Bucket.Matches.{matches}
use snip20_reference_impl.Btbe.Bucket.Invariant.{IsBucket, add_entry-IsBucket, new_bucket-IsBucket}
use snip20_reference_impl.Btbe.Trie.Invariant.{
  IsTrie, Ending, Has, hash_of, Walk-leaf, Walk-bound, Ending-stored, Ending-depth,
}
use snip20_reference_impl.Btbe.Settle.{route_entries, insert_loop, set_and_save_bucket, save_bucket}
use snip20_reference_impl.Btbe.Settle.Rewrite.{
  Rewrites, rewrite-Has, rewrite-Has_here, rewrite-IsTrie,
}
use snip20_reference_impl.Btbe.Settle.Route.{bit, pick, routes-eq-bit}
use snip20_reference_impl.Btbe.Settle.Split.{half, half_id, split-Ending_here}
use snip20_reference_impl.Btbe.Settle.Split.Sound.{split-IsTrie}
use snip20_reference_impl.Btbe.Settle.Halved.{route_entries-Halved, half_loaded, split-Has}
use snip20_reference_impl.Btbe.Settle.Steps.{
  split_node_exact, routes_behind, route_entries_behind, split_fails, route_nothing, insert_fails,
  insert_descends, insert_stops,
}

-- After the entry has been added: the trie is sound, the entries of the others are as they were, and
-- the address has this entry. The only failures are an id that does not fit and a bit behind the hash.
abbrev pub Inserted :
    {p : Platform}
    → Documented p
    → Bytes
    → Storage
    → StoredEntry
    → Result (Unit {0} × Storage)
    → Type 0
Inserted {p} doc secret s e (ok (u, s')) =
    IsTrie p secret s'
    × ((a : Bytes) (es : List StoredEntry)
        → a ≢ impossible_addr
        → address e ≢ a
        → Has s (hash_of doc secret a) a es
        → Has s' (hash_of doc secret a) a es)
    × Has s' (hash_of doc secret (address e)) (address e) (e ∷ [])
Inserted doc secret s e (err x) = (x ≡ overflow) ⊎ (x ≡ index_out_of_bounds)

Inserted-after :
    {p : Platform} (doc : Documented p) (secret : Bytes) (s t : Storage) (e : StoredEntry)
    (r : Result (Unit {0} × Storage))
    → ((a : Bytes) (es : List StoredEntry)
        → a ≢ impossible_addr
        → Has s (hash_of doc secret a) a es
        → Has t (hash_of doc secret a) a es)
    → Inserted doc secret t e r
    → Inserted doc secret s e r
Inserted-after doc secret s t e (ok (u, s')) step (x, y, z) =
    (x, λ a es ne other h. y a es ne other (step a es ne h), z)
Inserted-after doc secret s t e (err x) step h = h

module _ (p : Platform) (doc : Documented p) (secret : Bytes) where
  module _ (e : StoredEntry) (stored_e : IsStoredEntry e) (ne : address e ≢ impossible_addr) where
    -- Into a bucket with a free place.
    insert_room :
        (fuel : ℕ) {s : Storage} (t : IsTrie p secret s) {node : BitwiseTrieNode} {id pos : ℕ}
        {b : BtbeBucket}
        → IsBucket p b
        → 0 < b.capacity
        → Ending s (hash_of doc secret (address e)) node id pos
        → s.btbe_buckets node.bucket ≡ some b
        → matches (address e) b.entries ≡ []
        → Inserted doc secret s e (insert_loop p (suc fuel) secret e node id b pos s)
    unfolding insert_loop set_and_save_bucket save_bucket
    insert_room fuel {s} t {node} {id} {pos} {b} wb room ending loaded absent =
        let (b', added, wb', cap, others, own) =
          add_entry-IsBucket p b wb e room stored_e (λ _. absent) in
        let leaf_n : (node.bucket == 0) ≡ false = ground (arith, Walk-leaf ending.walk) in
        let w : Rewrites s (record s { btbe_buckets = update s.btbe_buckets node.bucket b' })
            node.bucket b' =
          record { part = refl } in
        rw (added, leaf_n)
          (
            rewrite-IsTrie w wb' t,
            λ a es ne' other h. rewrite-Has w loaded (others a ne' other) h,
            rewrite-Has_here w ending refl (own ne),
          )

    -- A full bucket is halved, and the entry goes on to its half, unless the bits are used up.
    insert_full :
        (fuel : ℕ) {s : Storage} (t : IsTrie p secret s) {node : BitwiseTrieNode} {id pos : ℕ}
        {b : BtbeBucket}
        → IsBucket p b
        → b.capacity ≡ 0
        → Ending s (hash_of doc secret (address e)) node id pos
        → s.btbe_buckets node.bucket ≡ some b
        → matches (address e) b.entries ≡ []
        → pos < 256
        → ((s' : Storage) (node' : BitwiseTrieNode) (id' : ℕ) (b' : BtbeBucket)
            → IsTrie p secret s'
            → Ending s' (hash_of doc secret (address e)) node' id' (suc pos)
            → s'.btbe_buckets node'.bucket ≡ some b'
            → matches (address e) b'.entries ≡ []
            → Inserted doc secret s' e (insert_loop p fuel secret e node' id' b' (suc pos) s'))
        → Inserted doc secret s e (insert_loop p (suc fuel) secret e node id b pos s)
    insert_full fuel {s} t {node} {id} {pos} {b} wb full ending loaded absent lt next =
        let hash = hash_of doc secret (address e) in
        let size = (doc.hkdf_sha_256_total bucketing_salt_bytes secret (address e)).2 in
        let leaf_n = Walk-leaf ending.walk in
        let stored = Ending-stored t ending in
        let deep = Ending-depth t ending in
        let (blank, sides, made, routed, halves) = route_entries-Halved doc secret b pos lt wb in
        elim (split_node_exact t node id pos b made routed) [
          | inl over ↦ rw (insert_fails p doc secret fuel e node id pos b s full over) (inl refl)
          | inr (s1, w, q) ↦
              let c = bit hash pos in
              let which = routes-eq-bit p doc secret e pos lt in
              let t1 =
                split-IsTrie t stored leaf_n w (omega arith) (halves.sound false)
                  (halves.sound true) in
              let end1 = split-Ending_here t stored leaf_n w size lt ending in
              let load1 = half_loaded t stored leaf_n w loaded halves c in
              let later =
                next s1 (half t stored leaf_n w c) (half_id t stored leaf_n w c) (pick c sides) t1
                  end1 load1 (halves.same (address e) ne ∙ absent) in
              let moved =
                Inserted-after doc secret s s1 e _
                  (λ a es ne' h. split-Has t stored leaf_n w loaded halves lt deep ne' h) later in
              rw (insert_descends p doc secret fuel e node id pos b s full c _ _ _ _ sides q which)
                moved
        ]

    -- With the bits used up, a full bucket is an error.
    insert_past :
        (fuel : ℕ) {s : Storage} (t : IsTrie p secret s) (node : BitwiseTrieNode) (id pos : ℕ)
        (b : BtbeBucket)
        → b.capacity ≡ 0
        → 256 ≤ pos
        → Inserted doc secret s e (insert_loop p (suc fuel) secret e node id b pos s)
    insert_past fuel {s} t node id pos b full behind =
        let (blank, made, wb, cap, empty) = new_bucket-IsBucket p in
        elim (route_entries_behind p doc secret b.entries pos (blank, blank) behind) [
          | inr bad ↦
              rw
                (insert_fails p doc secret fuel e node id pos b s full
                  (split_fails p doc secret node id pos b s made bad))
                (inr refl)
          | inl nothing ↦
              let routed : route_entries p secret pos b.entries (blank, blank) ≡ ok (blank, blank) =
                rw nothing (route_nothing p doc secret pos (blank, blank)) in
              elim (split_node_exact t node id pos b made routed) [
                | inl over ↦
                    rw (insert_fails p doc secret fuel e node id pos b s full over) (inl refl)
                | inr (s1, w, q) ↦
                    rw
                      (insert_stops p doc secret fuel e node id pos b s full q
                        (routes_behind p doc secret e pos behind))
                      (inr refl)
              ]
        ]

    -- The loop comes to an end on the fuel that it is given.
    pub insert_loop-Inserted :
        (fuel : ℕ) (s : Storage) (node : BitwiseTrieNode) (id pos : ℕ) (b : BtbeBucket)
        → IsTrie p secret s
        → 257 ≤ pos + fuel
        → Ending s (hash_of doc secret (address e)) node id pos
        → s.btbe_buckets node.bucket ≡ some b
        → matches (address e) b.entries ≡ []
        → Inserted doc secret s e (insert_loop p fuel secret e node id b pos s)
    insert_loop-Inserted zero s node id pos b t enough ending loaded absent =
        let size = (doc.hkdf_sha_256_total bucketing_salt_bytes secret (address e)).2 in
        let low = Walk-bound size (omega arith) ending.walk in absurd (omega arith)
    insert_loop-Inserted (suc fuel) s node id pos b t enough ending loaded absent =
        let (b', loaded', wb') =
          t.leaves id node (Ending-stored t ending) (Walk-leaf ending.walk) in
        let wb : IsBucket p b = rw (some-injective b' b (sym loaded' ∙ loaded)) at wb' in
        elim (Bool-cases (b.capacity == 0)) [
          | inr room ↦ insert_room fuel t wb (ground arith) ending loaded absent
          | inl used ↦
              let full : b.capacity ≡ 0 = ground arith in
              elim (Bool-cases (ltb pos 256)) [
                | inl within ↦
                    insert_full fuel t wb full ending loaded absent (ground arith)
                      (λ s' node' id' b' t' ending' loaded' absent'.
                        insert_loop-Inserted fuel s' node' id' (suc pos) b' t' (omega arith) ending'
                          loaded' absent')
                | inr behind ↦ insert_past fuel t node id pos b full (ground arith)
              ]
        ]
