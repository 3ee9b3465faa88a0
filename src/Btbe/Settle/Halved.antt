-- ===== src/Btbe/Settle/Halved.antt =====
-- What the addresses have after a bucket has been halved.
use snip20_reference_impl.Common.{
  ℕ, suc, ◌+◌, ◌<◌, ◌≡◌, ◌≢◌, refl, ap, sym, ◌∙◌, Bool, true, false, inl, inr, some, some-injective,
  List, arith, Bool-cases, ◌==◌,
}
use snip20_reference_impl.Common.Bytes.{Bytes}
use snip20_reference_impl.Outcome.{ok}
use snip20_reference_impl.Platform.{Platform, Documented}
use snip20_reference_impl.State.{Storage}
use snip20_reference_impl.Btbe.Types.{BtbeBucket, BitwiseTrieNode}
use snip20_reference_impl.Btbe.Entry.{StoredEntry, impossible_addr}
use snip20_reference_impl.Btbe.Bucket.{new_bucket}
use snip20_reference_impl.Btbe.Bucket.Matches.{matches}
use snip20_reference_impl.Btbe.Bucket.Invariant.{IsBucket, new_bucket-IsBucket}
use snip20_reference_impl.Btbe.Trie.Invariant.{
  IsTrie, Ending, Has, hash_of, Walk-leaf, Ending-stored, Ending-depth,
}
use snip20_reference_impl.Btbe.Bundles.{bucketing_salt_bytes}
use snip20_reference_impl.Btbe.Settle.{route_entries}
use snip20_reference_impl.Btbe.Settle.Route.{bit, pick, route_entries-Halves}
use snip20_reference_impl.Btbe.Settle.Split.Sound.{other_bucket}
use snip20_reference_impl.Btbe.Settle.Split.{
  Splits, half, half_id, bucket_at, bucket_below, split-Ending_other, split-Ending_here,
}

-- Two sound buckets: each address has on the side of its bit what it had in the bucket `b`.
pub record Halved {p : Platform} (doc : Documented p) (secret : Bytes) (pos : ℕ) (b : BtbeBucket)
    (sides : BtbeBucket × BtbeBucket) : Type 0 where
  pub sound : (c : Bool) → IsBucket p (pick c sides)
  pub same :
      (a : Bytes)
      → a ≢ impossible_addr
      → matches a (pick (bit (hash_of doc secret a) pos) sides).entries ≡ matches a b.entries

module _ {p : Platform} (doc : Documented p) (secret : Bytes) where
  -- The entries of a bucket that are routed into two new ones.
  pub route_entries-Halved :
      (b : BtbeBucket) (pos : ℕ)
      → pos < 256
      → IsBucket p b
      → (blank : BtbeBucket) × (sides : BtbeBucket × BtbeBucket) × (new_bucket p ≡ ok blank)
        × (route_entries p secret pos b.entries (blank, blank) ≡ ok sides)
        × Halved doc secret pos b sides
  route_entries-Halved b pos lt w =
      let (blank, made, wb, cap, empty) = new_bucket-IsBucket p in
      let size = w.size in
      let both : (c : Bool) → pick c (blank, blank) ≡ blank = elim [ true ↦ refl | false ↦ refl ] in
      let (sides, routed, halves) =
        route_entries-Halves p doc secret pos lt b.entries (blank, blank) (λ c. rw (both c) wb)
          (λ c. rw (both c) (omega arith)) w.stored w.single
          (λ a ne. inr (λ c. rw (both c) (empty a ne))) in
      (
        blank,
        sides,
        made,
        routed,
        record {
          sound = halves.sound;
          same = λ a ne. elim (w.single a ne) [
            | inl absent ↦
                let c = bit (hash_of doc secret a) pos in
                halves.kept c a ne absent ∙ rw (both c) (empty a ne ∙ sym absent)
            | inr (e, one) ↦ halves.own a ne e one ∙ sym one
          ];
        },
      )

module _ {p : Platform} {doc : Documented p} {secret : Bytes} {s s' : Storage}
    (t : IsTrie p secret s) {node : BitwiseTrieNode} {id pos : ℕ} {sides : BtbeBucket × BtbeBucket}
    {b : BtbeBucket} (stored : s.btbe_trie_nodes id ≡ some node) (is_leaf : node.bucket ≢ 0)
    (w : Splits s s' node id t.nodes t.buckets sides) (loaded : s.btbe_buckets node.bucket ≡ some b)
    (halves : Halved doc secret pos b sides) where
  pub half_loaded :
      (c : Bool) → s'.btbe_buckets (half t stored is_leaf w c).bucket ≡ some (pick c sides)
  half_loaded false =
      let h = bucket_below t stored is_leaf w in
      ground (arith, bucket_at t stored is_leaf w node.bucket)
  half_loaded true = ground (arith, bucket_at t stored is_leaf w (t.buckets + 1))

  -- Every address has what it had.
  pub split-Has :
      {a : Bytes} {es : List StoredEntry}
      → pos < 256
      → t.depth id ≡ pos
      → a ≢ impossible_addr
      → Has s (hash_of doc secret a) a es
      → Has s' (hash_of doc secret a) a es
  split-Has {a} lt d ne h =
      let hash = hash_of doc secret a in
      let size = (doc.hkdf_sha_256_total bucketing_salt_bytes secret a).2 in
      let leaf_h = Walk-leaf h.ending.walk in
      let stored_h = Ending-stored t h.ending in
      elim (Bool-cases (id == h.id)) [
        | inl same_id ↦
            let i : h.id ≡ id = ground arith in
            let deep : h.pos ≡ pos = sym (Ending-depth t h.ending) ∙ ap t.depth i ∙ d in
            let here : Ending s hash h.last id pos = rw (i, deep) at h.ending in
            let last : h.last ≡ node =
              some-injective h.last node (sym stored_h ∙ ap s.btbe_trie_nodes i ∙ stored) in
            let it : b ≡ h.bucket = some-injective b h.bucket (
              sym loaded
              ∙ ap (λ (n : BitwiseTrieNode). s.btbe_buckets n.bucket) (sym last)
              ∙ h.loaded) in
            let c = bit hash pos in
            record {
              last = half t stored is_leaf w c;
              id = half_id t stored is_leaf w c;
              pos = suc pos;
              ending = split-Ending_here t stored is_leaf w size lt here;
              bucket = pick c sides;
              loaded = half_loaded c;
              entries =
                  halves.same a ne ∙ ap (λ (x : BtbeBucket). matches a x.entries) it ∙ h.entries;
            }
        | inr other_id ↦
            let i : h.id ≢ id = ground arith in
            let (x, y) = other_bucket t stored is_leaf w i stored_h leaf_h in
            record {
              last = h.last;
              id = h.id;
              pos = h.pos;
              ending = split-Ending_other t stored is_leaf w i h.ending;
              bucket = h.bucket;
              loaded = ground (arith, bucket_at t stored is_leaf w h.last.bucket, h.loaded);
              entries = h.entries;
            }
      ]
