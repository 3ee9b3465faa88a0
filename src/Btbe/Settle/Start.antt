-- ===== src/Btbe/Settle/Start.antt =====
-- `initialize_btbe` of src/btbe.rs, and reading a balance.
use snip20_reference_impl.Common.{
  ℕ, ◌≡◌, ◌≢◌, refl, ap, sym, ◌∙◌, none, some, some-injective, inl, inr, [], ◌∷◌, arith, Bool-cases,
  ◌==◌,
}
use snip20_reference_impl.Common.Bytes.{Bytes}
use snip20_reference_impl.Outcome.{ok}
use snip20_reference_impl.Platform.{Platform, Documented}
use snip20_reference_impl.State.{Storage, update}
use snip20_reference_impl.Btbe.Types.{BtbeBucket, BitwiseTrieNode}
use snip20_reference_impl.Btbe.Entry.{balance, impossible_addr}
use snip20_reference_impl.Btbe.Bucket.Invariant.{IsBucket, new_bucket-IsBucket}
use snip20_reference_impl.Btbe.Trie.{stored_balance}
use snip20_reference_impl.Btbe.Trie.Locate.{at_leaf}
use snip20_reference_impl.Btbe.Trie.Invariant.{
  IsTrie, Ledger, balance_in, Has-stored_entry, Walk-leaf, Ending-stored,
}
use snip20_reference_impl.Btbe.Settle.{initialize_btbe, new_leaf, leaf, save_bucket, save_node}

-- The storage of a contract that has been given its trie.
abbrev pub started : Storage → BtbeBucket → Storage
started s b = record s {
  btbe_buckets_count = some 1;
  btbe_buckets = update s.btbe_buckets 1 b;
  btbe_trie_nodes_count = some 1;
  btbe_trie_nodes = update s.btbe_trie_nodes 1 (leaf 1);
}

-- The storage with the secret, which is saved later.
abbrev pub with_secret : Bytes → Storage → Storage
with_secret secret s = record s { internal_secret_sensitive = some secret }

module _ (p : Platform) (secret : Bytes) (s : Storage) (b : BtbeBucket)
    (no_nodes : (i : ℕ) → s.btbe_trie_nodes i ≡ none) (wb : IsBucket p b) where
  only_root :
      (i : ℕ) (n : BitwiseTrieNode)
      → (started s b).btbe_trie_nodes i ≡ some n
      → (i ≡ 1) × (n ≡ leaf 1)
  only_root i n q = elim (Bool-cases (1 == i)) [
    | inl here ↦ ground arith
    | inr other ↦ absurd (ground (arith, no_nodes i))
  ]

  started-IsTrie : IsTrie p secret (with_secret secret (started s b))
  started-IsTrie = record {
    secret_stored = refl;
    root = leaf 1;
    root_stored = refl;
    nodes = 1;
    nodes_counted = refl;
    nodes_below = λ i n q. rw ((only_root i n q).0) (omega arith);
    children_below = λ i n q e. absurd (ground (arith, (only_root i n q).1));
    buckets = 1;
    buckets_counted = refl;
    buckets_below = λ i n q. rw ((only_root i n q).1) (omega arith);
    owner = λ k. 1;
    owned = λ i n q ne. sym ((only_root i n q).0);
    depth = λ i. 0;
    depth_root = refl;
    depth_child = λ i n q e. absurd (ground (arith, (only_root i n q).1));
    leaves = λ i n q ne. rw ((only_root i n q).1) (b, refl, wb);
    walks = λ hash size. (leaf 1, 1, 0, at_leaf (ground arith));
  }

-- In fresh storage the trie starts with one leaf and, once the secret is saved, every balance at 0.
pub initialize_btbe-Ledger :
    (p : Platform) (doc : Documented p) (secret : Bytes) (s : Storage)
    → ((i : ℕ) → s.btbe_trie_nodes i ≡ none)
    → s.btbe_buckets_count ≡ none
    → (b : BtbeBucket) × (initialize_btbe p s ≡ ok (tt, started s b))
      × IsTrie p secret (with_secret secret (started s b))
      × Ledger doc secret (with_secret secret (started s b)) (λ a. 0)
unfolding initialize_btbe new_leaf save_bucket save_node
initialize_btbe-Ledger p doc secret s no_nodes no_buckets =
    let (b, made, wb, cap, empty) = new_bucket-IsBucket p in
    (
      b,
      ground (arith, made, no_buckets),
      started-IsTrie p secret s b no_nodes wb,
      λ a ne. (
        [],
        record {
          last = leaf 1;
          id = 1;
          pos = 0;
          ending = record { top = leaf 1; top_stored = refl; walk = at_leaf (ground arith) };
          bucket = b;
          loaded = refl;
          entries = empty a ne;
        },
        refl,
      ),
    )

-- The balance that is read for an address is the one that the trie holds.
pub stored_balance-Ledger :
    (p : Platform) (doc : Documented p) (secret : Bytes) (s : Storage) (held : Bytes → ℕ)
    (a : Bytes)
    → IsTrie p secret s
    → Ledger doc secret s held
    → a ≢ impossible_addr
    → stored_balance p a s ≡ ok (held a)
unfolding stored_balance
stored_balance-Ledger p doc secret s held a t ledger ne =
    let (es, h, known) = ledger a ne in
    let (b, loaded, wb) =
      t.leaves h.id h.last (Ending-stored t h.ending) (Walk-leaf h.ending.walk) in
    let wb' : IsBucket p h.bucket = rw (some-injective b h.bucket (sym loaded ∙ h.loaded)) at wb in
    let (on_none, on_one) = Has-stored_entry p doc secret a t.secret_stored h in
    elim (wb'.single a ne) [
      | inl absent ↦
          let nothing : es ≡ [] = sym h.entries ∙ absent in
          let read = on_none nothing in
          let v : 0 ≡ held a = sym (ap balance_in nothing) ∙ known in ground (arith, read, v)
      | inr (e, one) ↦
          let only : es ≡ e ∷ [] = sym h.entries ∙ one in
          let read = on_one e only in
          let v : balance e ≡ held a = sym (ap balance_in only) ∙ known in ground (arith, read, v)
    ]
