-- ===== src/Btbe/Settle/Split/Sound.antt =====
-- That the trie is sound after a leaf has become a branch.
use snip20_reference_impl.Common.{
  ℕ, suc, ◌+◌, ◌<◌, ◌≤◌, ◌≡◌, ◌≢◌, ap, sym, ◌∙◌, inl, inr, some, some-injective, arith, length,
  Bool-cases, ◌==◌, if◌then◌else◌,
}
use snip20_reference_impl.Common.Bytes.{Bytes}
use snip20_reference_impl.Platform.{Platform}
use snip20_reference_impl.State.{Storage}
use snip20_reference_impl.Btbe.Types.{BtbeBucket, BitwiseTrieNode}
use snip20_reference_impl.Btbe.Bucket.Invariant.{IsBucket}
use snip20_reference_impl.Btbe.Trie.Invariant.{IsTrie, Ending, Ending-depth}
use snip20_reference_impl.Btbe.Settle.Rewrite.{TriePart}
use snip20_reference_impl.Btbe.Settle.Route.{bit}
use snip20_reference_impl.Btbe.Settle.Split.{
  Splits, left_id, right_id, branch, bucket_at, id_below, bucket_below, at_branch, at_other,
  node_cases, half_id, half, split-Ending_other, split-Ending_here,
}

module _ {p : Platform} {secret : Bytes} {s s' : Storage} (t : IsTrie p secret s)
    {node : BitwiseTrieNode} {id : ℕ} {sides : BtbeBucket × BtbeBucket}
    (stored : s.btbe_trie_nodes id ≡ some node) (is_leaf : node.bucket ≢ 0)
    (w : Splits s s' node id t.nodes t.buckets sides) where
  depth_after : ℕ → ℕ
  depth_after i =
      if (left_id t stored is_leaf w) == i
      then suc (t.depth id)
      else if (right_id t stored is_leaf w) == i
      then suc (t.depth id)
      else t.depth i

  depth_before : (i : ℕ) → i ≤ t.nodes → depth_after i ≡ t.depth i
  unfolding depth_after
  depth_before i h = ground arith

  depth_half :
      (depth_after (left_id t stored is_leaf w) ≡ suc (t.depth id))
      × (depth_after (right_id t stored is_leaf w) ≡ suc (t.depth id))
  unfolding depth_after
  depth_half = (ground arith, ground arith)

  owner_after : ℕ → ℕ
  owner_after b =
      if node.bucket == b
      then (left_id t stored is_leaf w)
      else if t.buckets + 1 == b
      then (right_id t stored is_leaf w)
      else t.owner b

  -- Another leaf has neither of the two buckets.
  pub other_bucket :
      {i : ℕ} {n : BitwiseTrieNode}
      → i ≢ id
      → s.btbe_trie_nodes i ≡ some n
      → n.bucket ≢ 0
      → (node.bucket ≢ n.bucket) × (t.buckets + 1 ≢ n.bucket)
  other_bucket {i} {n} ne q leaf_n =
      let owns = t.owned i n q leaf_n in
      let owned = t.owned id node stored is_leaf in
      let below = t.buckets_below i n q in
      (λ same. ne (sym owns ∙ ap t.owner (sym same) ∙ owned), omega arith)

  owned_after :
      (i : ℕ) (n : BitwiseTrieNode)
      → s'.btbe_trie_nodes i ≡ some n
      → n.bucket ≢ 0
      → owner_after n.bucket ≡ i
  unfolding owner_after
  owned_after i n q leaf_n =
      let h = (bucket_below t stored is_leaf w) in
      elim ((node_cases t stored is_leaf w) i n q) [
        | inl (a, e) ↦ absurd (leaf_n (ap (λ (m : BitwiseTrieNode). m.bucket) e))
        | inr (inl (a, e)) ↦ rw (e) (ground arith)
        | inr (inr (inl (a, e))) ↦ rw (e) (ground arith)
        | inr (inr (inr (a, e))) ↦
            let (x, y) = other_bucket a e leaf_n in let owns = t.owned i n e leaf_n in ground arith
      ]

  leaves_after :
      IsBucket p sides.0
      → IsBucket p sides.1
      → (i : ℕ) (n : BitwiseTrieNode) → s'.btbe_trie_nodes i ≡ some n
      → n.bucket ≢ 0
      → (b : BtbeBucket) × (s'.btbe_buckets n.bucket ≡ some b) × IsBucket p b
  leaves_after wl wr i n q leaf_n =
      let h = (bucket_below t stored is_leaf w) in
      elim ((node_cases t stored is_leaf w) i n q) [
        | inl (a, e) ↦ absurd (leaf_n (ap (λ (m : BitwiseTrieNode). m.bucket) e))
        | inr (inl (a, e)) ↦
            rw e (sides.0, ground (arith, (bucket_at t stored is_leaf w) node.bucket), wl)
        | inr (inr (inl (a, e))) ↦
            rw e (sides.1, ground (arith, (bucket_at t stored is_leaf w) (t.buckets + 1)), wr)
        | inr (inr (inr (a, e))) ↦
            let (x, y) = other_bucket a e leaf_n in
            let (b, g, wb) = t.leaves i n e leaf_n in
            (b, ground (arith, (bucket_at t stored is_leaf w) n.bucket), wb)
      ]

  below_after :
      (i : ℕ) (n : BitwiseTrieNode)
      → s'.btbe_trie_nodes i ≡ some n
      → (i ≤ t.nodes + 2) × (n.bucket ≤ t.buckets + 1)
  below_after i n q =
      let h = (id_below t stored is_leaf w) in
      let h' = (bucket_below t stored is_leaf w) in
      elim ((node_cases t stored is_leaf w) i n q) [
        | inl (a, e) ↦ rw e (omega arith, omega arith)
        | inr (inl (a, e)) ↦ rw e (omega arith, omega arith)
        | inr (inr (inl (a, e))) ↦ rw e (omega arith, omega arith)
        | inr (inr (inr (a, e))) ↦
            let x = t.nodes_below i n e in
            let y = t.buckets_below i n e in (omega arith, omega arith)
      ]

  children_after :
      (i : ℕ) (n : BitwiseTrieNode)
      → s'.btbe_trie_nodes i ≡ some n
      → n.bucket ≡ 0
      → ((n.left ≤ t.nodes + 2) × (n.right ≤ t.nodes + 2))
        × ((depth_after n.left ≡ suc (depth_after i)) × (depth_after n.right ≡ suc (depth_after i)))
  children_after i n q is_branch =
      let h = (id_below t stored is_leaf w) in
      elim ((node_cases t stored is_leaf w) i n q) [
        | inl (a, e) ↦ rw (e, a, depth_before id h) ((omega arith, omega arith), depth_half)
        | inr (inl (a, e)) ↦
            absurd (is_leaf (sym (ap (λ (m : BitwiseTrieNode). m.bucket) e) ∙ is_branch))
        | inr (inr (inl (a, e))) ↦ absurd (ground arith)
        | inr (inr (inr (a, e))) ↦
            let (l, r) = t.children_below i n e is_branch in
            let (dl, dr) = t.depth_child i n e is_branch in
            let below = t.nodes_below i n e in
            (
              (omega arith, omega arith),
              rw (depth_before n.left l, depth_before n.right r, depth_before i below) (dl, dr),
            )
      ]

  root_after : (top : BitwiseTrieNode) × (s'.btbe_trie_nodes 1 ≡ some top)
  root_after = elim (Bool-cases (id == 1)) [
    | inl here ↦
        let e : id ≡ 1 = ground arith in
        (
          (branch t stored is_leaf w),
          ap s'.btbe_trie_nodes (sym e) ∙ (at_branch t stored is_leaf w),
        )
    | inr other ↦
        let ne : 1 ≢ id = ground arith in (t.root, (at_other t stored is_leaf w) ne t.root_stored)
  ]

  walks_after :
      t.depth id < 256
      → (hash : Bytes) → length hash ≡ 32
      → (last : BitwiseTrieNode) × (last_id : ℕ) × (pos : ℕ) × Ending s' hash last last_id pos
  walks_after lt hash size =
      let (last, last_id, pos, walk) = t.walks hash size in
      let e : Ending s hash last last_id pos = record {
        top = t.root;
        top_stored = t.root_stored;
        walk = walk;
      } in
      elim (Bool-cases (id == last_id)) [
        | inl here ↦
            let same : last_id ≡ id = ground arith in
            let e' : Ending s hash last id pos = rw same at e in
            let d = Ending-depth t e' in
            (
              (half t stored is_leaf w) (bit hash pos),
              (half_id t stored is_leaf w) (bit hash pos),
              suc pos,
              (split-Ending_here t stored is_leaf w) size (omega arith) e',
            )
        | inr other ↦
            let ne : last_id ≢ id = ground arith in
            (last, last_id, pos, (split-Ending_other t stored is_leaf w) ne e)
      ]

  pub split-IsTrie : t.depth id < 256 → IsBucket p sides.0 → IsBucket p sides.1 → IsTrie p secret s'
  split-IsTrie lt wl wr =
      let (top, top_stored) = root_after in
      let low = t.nodes_below 1 t.root t.root_stored in
      record {
        secret_stored = ap (λ (x : TriePart). x.secret) w.part ∙ t.secret_stored;
        root = top;
        root_stored = top_stored;
        nodes = t.nodes + 2;
        nodes_counted = ap (λ (x : TriePart). x.nodes_count) w.part;
        nodes_below = λ i n q. (below_after i n q).0;
        children_below = λ i n q e. (children_after i n q e).0;
        buckets = t.buckets + 1;
        buckets_counted = ap (λ (x : TriePart). x.buckets_count) w.part;
        buckets_below = λ i n q. (below_after i n q).1;
        owner = owner_after;
        owned = owned_after;
        depth = depth_after;
        depth_root = depth_before 1 low ∙ t.depth_root;
        depth_child = λ i n q e. (children_after i n q e).1;
        leaves = leaves_after wl wr;
        walks = λ hash size.
            let (last, last_id, pos, e) = walks_after lt hash size in
            let same = some-injective e.top top (sym e.top_stored ∙ top_stored) in
            (last, last_id, pos, rw same at e.walk);
      }
