-- ===== src/Btbe/Settle/Rewrite.antt =====
-- Writing one bucket of the trie.
use snip20_reference_impl.Common.{
  ℕ, ◌≡◌, refl, ap, sym, ◌∙◌, inl, inr, Option, some, some-injective, List, arith, Bool-cases, ◌==◌,
  if◌then◌else◌,
}
use snip20_reference_impl.Common.Bytes.{Bytes}
use snip20_reference_impl.Platform.{Platform}
use snip20_reference_impl.State.{Storage, update}
use snip20_reference_impl.Btbe.Types.{BtbeBucket, BitwiseTrieNode}
use snip20_reference_impl.Btbe.Entry.{StoredEntry}
use snip20_reference_impl.Btbe.Bucket.Matches.{matches}
use snip20_reference_impl.Btbe.Bucket.Invariant.{IsBucket}
use snip20_reference_impl.Btbe.Trie.Invariant.{IsTrie, Ending, Has, Walk-mono}

-- The part of the storage that the trie stands in.
pub record TriePart : Type 0 where
  pub secret : Option Bytes
  pub nodes : ℕ → Option BitwiseTrieNode
  pub nodes_count : Option ℕ
  pub buckets : ℕ → Option BtbeBucket
  pub buckets_count : Option ℕ

abbrev pub trie_part : Storage → TriePart
trie_part s = record {
  secret = s.internal_secret_sensitive;
  nodes = s.btbe_trie_nodes;
  nodes_count = s.btbe_trie_nodes_count;
  buckets = s.btbe_buckets;
  buckets_count = s.btbe_buckets_count;
}

-- The trie is the same but for the bucket `k`.
pub record Rewrites (s s' : Storage) (k : ℕ) (b : BtbeBucket) : Type 0 where
  pub part : trie_part s' ≡ record (trie_part s) { buckets = update s.btbe_buckets k b }

module _ {s s' : Storage} {k : ℕ} {b : BtbeBucket} (w : Rewrites s s' k b) where
  same_nodes : (i : ℕ) → s'.btbe_trie_nodes i ≡ s.btbe_trie_nodes i
  same_nodes i = ap (λ (t : TriePart). t.nodes i) w.part

  new_bucket_at : (i : ℕ) → s'.btbe_buckets i ≡ (if k == i then some b else s.btbe_buckets i)
  new_bucket_at i = ap (λ (t : TriePart). t.buckets i) w.part

  pub rewrite-Ending :
      {hash : Bytes} {last : BitwiseTrieNode} {id pos : ℕ}
      → Ending s hash last id pos
      → Ending s' hash last id pos
  rewrite-Ending e = record {
    top = e.top;
    top_stored = same_nodes 1 ∙ e.top_stored;
    walk = Walk-mono s' (λ i n q. same_nodes i ∙ q) e.walk;
  }

  -- An address whose entries in the bucket are the same has the same entries.
  pub rewrite-Has :
      {hash a : Bytes} {es : List StoredEntry} {old : BtbeBucket}
      → s.btbe_buckets k ≡ some old
      → matches a b.entries ≡ matches a old.entries
      → Has s hash a es
      → Has s' hash a es
  rewrite-Has {a = a} {old = old} was same h = elim (Bool-cases (k == h.last.bucket)) [
    | inl here ↦
        let e : k ≡ h.last.bucket = ground arith in
        let it : old ≡ h.bucket =
          some-injective old h.bucket (sym was ∙ ap s.btbe_buckets e ∙ h.loaded) in
        record {
          last = h.last;
          id = h.id;
          pos = h.pos;
          ending = rewrite-Ending h.ending;
          bucket = b;
          loaded = rw (new_bucket_at h.last.bucket, here) refl;
          entries = same ∙ ap (λ (x : BtbeBucket). matches a x.entries) it ∙ h.entries;
        }
    | inr other ↦ record {
      last = h.last;
      id = h.id;
      pos = h.pos;
      ending = rewrite-Ending h.ending;
      bucket = h.bucket;
      loaded = rw (new_bucket_at h.last.bucket, other) h.loaded;
      entries = h.entries;
    }
  ]

  -- An address whose leaf has the bucket has the entries that are written.
  pub rewrite-Has_here :
      {hash a : Bytes} {es : List StoredEntry} {last : BitwiseTrieNode} {id pos : ℕ}
      → Ending s hash last id pos
      → last.bucket ≡ k
      → matches a b.entries ≡ es
      → Has s' hash a es
  rewrite-Has_here {last = last} {id = id} {pos = pos} e here m = record {
    last = last;
    id = id;
    pos = pos;
    ending = rewrite-Ending e;
    bucket = b;
    loaded = rw (new_bucket_at last.bucket, here) (ground arith);
    entries = m;
  }

  pub rewrite-IsTrie :
      {p : Platform} {secret : Bytes} → IsBucket p b → IsTrie p secret s → IsTrie p secret s'
  rewrite-IsTrie {p} wb t = record {
    secret_stored = ap (λ (x : TriePart). x.secret) w.part ∙ t.secret_stored;
    root = t.root;
    root_stored = same_nodes 1 ∙ t.root_stored;
    nodes = t.nodes;
    nodes_counted = ap (λ (x : TriePart). x.nodes_count) w.part ∙ t.nodes_counted;
    nodes_below = λ i n q. t.nodes_below i n (sym (same_nodes i) ∙ q);
    children_below = λ i n q. t.children_below i n (sym (same_nodes i) ∙ q);
    buckets = t.buckets;
    buckets_counted = ap (λ (x : TriePart). x.buckets_count) w.part ∙ t.buckets_counted;
    buckets_below = λ i n q. t.buckets_below i n (sym (same_nodes i) ∙ q);
    owner = t.owner;
    owned = λ i n q. t.owned i n (sym (same_nodes i) ∙ q);
    depth = t.depth;
    depth_root = t.depth_root;
    depth_child = λ i n q. t.depth_child i n (sym (same_nodes i) ∙ q);
    leaves = λ i n q ne. elim (Bool-cases (k == n.bucket)) [
      | inl here ↦ (b, rw (new_bucket_at n.bucket, here) refl, wb)
      | inr other ↦
          let (x, g, wx) = t.leaves i n (sym (same_nodes i) ∙ q) ne in
          (x, rw (new_bucket_at n.bucket, other) g, wx)
    ];
    walks = λ hash n.
        let (last, id, pos, walk) = t.walks hash n in
        (last, id, pos, Walk-mono s' (λ i m q. same_nodes i ∙ q) walk);
  }
