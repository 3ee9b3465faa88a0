-- ===== src/Btbe/Settle/Split.antt =====
-- The trie after a leaf has become a branch with two leaves.
pub mod Sound
use snip20_reference_impl.Common.{
  ℕ, suc, ◌+◌, ◌/◌, ◌<◌, ◌≤◌, ◌≡◌, ◌≢◌, refl, ap, sym, ◌∙◌, Bool, true, false, not, ◌⊎◌, inl, inr,
  some, some-injective, arith, length, get_elem?, get_elem?_total, Bool-cases, ◌==◌, if◌then◌else◌,
}
use snip20_reference_impl.Common.Bytes.{Bytes}
use snip20_reference_impl.Platform.{Platform}
use snip20_reference_impl.State.{Storage, update}
use snip20_reference_impl.Btbe.Types.{BtbeBucket, BitwiseTrieNode}
use snip20_reference_impl.Btbe.Bundles.{bit_of_byte}
use snip20_reference_impl.Btbe.Bucket.Invariant.{IsBucket}
use snip20_reference_impl.Btbe.Trie.Locate.{Walk, at_leaf, descend}
use snip20_reference_impl.Btbe.Trie.Invariant.{IsTrie, Ending, Walk-from_leaf, Ending-depth}
use snip20_reference_impl.Btbe.Settle.{leaf}
use snip20_reference_impl.Btbe.Settle.Rewrite.{TriePart, trie_part}
use snip20_reference_impl.Btbe.Settle.Route.{bit}

-- The leaf `node` at `id` has become a branch: its bucket has the entries of the left leaf.
pub record Splits (s s' : Storage) (node : BitwiseTrieNode) (id nodes buckets : ℕ)
    (sides : BtbeBucket × BtbeBucket) : Type 0 where
  pub part : trie_part s' ≡ record (trie_part s) {
    nodes =
        update
          (update
            (update s.btbe_trie_nodes (nodes + 1) (leaf node.bucket))
            (nodes + 2)
            (leaf (buckets + 1)))
          id
          (record { left = nodes + 1; right = nodes + 2; bucket = 0 });
    nodes_count = some (nodes + 2);
    buckets = update (update s.btbe_buckets node.bucket sides.0) (buckets + 1) sides.1;
    buckets_count = some (buckets + 1);
  }

module _ {p : Platform} {secret : Bytes} {s s' : Storage} (t : IsTrie p secret s)
    {node : BitwiseTrieNode} {id : ℕ} {sides : BtbeBucket × BtbeBucket}
    (stored : s.btbe_trie_nodes id ≡ some node) (is_leaf : node.bucket ≢ 0)
    (w : Splits s s' node id t.nodes t.buckets sides) where
  abbrev pub left_id : ℕ
  left_id = t.nodes + 1

  abbrev pub right_id : ℕ
  right_id = t.nodes + 2

  abbrev pub branch : BitwiseTrieNode
  branch = record { left = left_id; right = right_id; bucket = 0 }

  node_at :
      (i : ℕ)
      → s'.btbe_trie_nodes i ≡ (
          if id == i
          then some branch
          else if right_id == i
          then some (leaf (t.buckets + 1))
          else if left_id == i
          then some (leaf node.bucket)
          else s.btbe_trie_nodes i)
  node_at i = ap (λ (x : TriePart). x.nodes i) w.part

  pub bucket_at :
      (i : ℕ)
      → s'.btbe_buckets i ≡ (
          if t.buckets + 1 == i
          then some sides.1
          else if node.bucket == i
          then some sides.0
          else s.btbe_buckets i)
  bucket_at i = ap (λ (x : TriePart). x.buckets i) w.part

  pub id_below : id ≤ t.nodes
  id_below = t.nodes_below id node stored

  pub bucket_below : node.bucket ≤ t.buckets
  bucket_below = t.buckets_below id node stored

  pub at_branch : s'.btbe_trie_nodes id ≡ some branch
  at_branch = ground (arith, node_at id)

  at_left : s'.btbe_trie_nodes left_id ≡ some (leaf node.bucket)
  at_left = let h = id_below in ground (arith, node_at left_id)

  at_right : s'.btbe_trie_nodes right_id ≡ some (leaf (t.buckets + 1))
  at_right = let h = id_below in ground (arith, node_at right_id)

  pub at_other :
      {i : ℕ} {n : BitwiseTrieNode}
      → i ≢ id
      → s.btbe_trie_nodes i ≡ some n
      → s'.btbe_trie_nodes i ≡ some n
  at_other {i} {n} ne q = let h = t.nodes_below i n q in ground (arith, node_at i)

  -- A node of the trie after the split.
  pub node_cases :
      (i : ℕ) (n : BitwiseTrieNode)
      → s'.btbe_trie_nodes i ≡ some n
      → ((i ≡ id) × (n ≡ branch))
        ⊎ (((i ≡ left_id) × (n ≡ leaf node.bucket))
            ⊎ (((i ≡ right_id) × (n ≡ leaf (t.buckets + 1)))
                ⊎ ((i ≢ id) × (s.btbe_trie_nodes i ≡ some n))))
  node_cases i n q = elim (Bool-cases (id == i)) [
    | inl a ↦ inl (ground (arith, node_at i))
    | inr a ↦ elim (Bool-cases (right_id == i)) [
      | inl b ↦ inr (inr (inl (ground (arith, node_at i))))
      | inr b ↦ elim (Bool-cases (left_id == i)) [
        | inl c ↦ inr (inl (ground (arith, node_at i)))
        | inr c ↦ inr (inr (inr (ground (arith, node_at i))))
      ]
    ]
  ]

  -- A walk that ends at another leaf is as before.
  Walk-other :
      {hash : Bytes} {n last : BitwiseTrieNode} {i pos last_id last_pos : ℕ}
      → last_id ≢ id
      → Walk s hash n i pos last last_id last_pos
      → Walk s' hash n i pos last last_id last_pos
  Walk-other ne (at_leaf leaf_n) = at_leaf leaf_n
  Walk-other {last_id = last_id} ne (descend {next = next} {next_id = next_id} e b c q rest) =
      let elsewhere : next_id ≢ id = λ here.
        let same : node ≡ next =
          some-injective node next (sym stored ∙ ap s.btbe_trie_nodes (sym here) ∙ q) in
        ne (Walk-from_leaf (rw same at is_leaf) rest ∙ here) in
      descend e b c (at_other elsewhere q) (Walk-other ne rest)

  pub split-Ending_other :
      {hash : Bytes} {last : BitwiseTrieNode} {last_id pos : ℕ}
      → last_id ≢ id
      → Ending s hash last last_id pos
      → Ending s' hash last last_id pos
  split-Ending_other {last_id = last_id} ne e = record {
    top = e.top;
    top_stored =
        at_other
          (λ here.
            let same : node ≡ e.top =
              some-injective node e.top
                (sym stored ∙ ap s.btbe_trie_nodes (sym here) ∙ e.top_stored) in
            ne (Walk-from_leaf (rw same at is_leaf) e.walk ∙ here))
          e.top_stored;
    walk = Walk-other ne e.walk;
  }

  abbrev pub half_id : Bool → ℕ
  half_id c = if c then right_id else left_id

  abbrev pub half : Bool → BitwiseTrieNode
  half c = if c then leaf (t.buckets + 1) else leaf node.bucket

  at_half : (c : Bool) → s'.btbe_trie_nodes (half_id c) ≡ some (half c)
  at_half false = at_left
  at_half true = at_right

  half_leaf : (c : Bool) → (half c).bucket ≢ 0
  half_leaf false = is_leaf
  half_leaf true = ground arith

  -- A walk that ended at the leaf goes on to one of its halves.
  Walk-through :
      {hash : Bytes} {n last : BitwiseTrieNode} {i pos last_id last_pos byte : ℕ}
      → get_elem? hash (last_pos / 8) ≡ some byte
      → last_id ≡ id
      → s.btbe_trie_nodes i ≡ some n
      → Walk s hash n i pos last last_id last_pos
      → let c = not (bit_of_byte byte last_pos == 0) in
        (n' : BitwiseTrieNode) × (s'.btbe_trie_nodes i ≡ some n')
        × Walk s' hash n' i pos (half c) (half_id c) (suc last_pos)
  Walk-through {i = i} {pos = pos} {byte = byte} g here q (at_leaf leaf_n) =
      let c = not (bit_of_byte byte pos == 0) in
      (
        branch,
        ap s'.btbe_trie_nodes here ∙ at_branch,
        descend refl g
            (elim (Bool-cases (bit_of_byte byte pos == 0)) [
              | inl e ↦ rw e refl
              | inr e ↦ rw e refl
            ])
            (at_half c) (at_leaf (half_leaf c)),
      )
  Walk-through {n = n} {i = i} g here q (descend {next = next} e b c r rest) =
      let (next', stored', walk') = Walk-through g here r rest in
      let ne : i ≢ id = λ x.
        let same : node ≡ n =
          some-injective node n (sym stored ∙ ap s.btbe_trie_nodes (sym x) ∙ q) in
        is_leaf (ap (λ (m : BitwiseTrieNode). m.bucket) same ∙ e) in
      (n, at_other ne q, descend e b c stored' walk')

  pub split-Ending_here :
      {hash : Bytes} {last : BitwiseTrieNode} {pos : ℕ}
      → length hash ≡ 32
      → pos < 256
      → Ending s hash last id pos
      → Ending s' hash (half (bit hash pos)) (half_id (bit hash pos)) (suc pos)
  unfolding bit
  split-Ending_here {hash = hash} {pos = pos} size lt e =
      let (byte, g) = get_elem?_total hash (pos / 8) (omega arith) in
      let (top', stored', walk') = Walk-through g refl e.top_stored e.walk in
      let which : bit hash pos ≡ not (bit_of_byte byte pos == 0) = ground (arith, g) in
      record { top = top'; top_stored = stored'; walk = rw which walk' }
