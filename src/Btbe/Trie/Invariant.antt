-- ===== src/Btbe/Trie/Invariant.antt =====
-- What the trie in storage satisfies, and the entries of an address as they are read from it.
use snip20_reference_impl.Common.{
  ℕ, suc, ◌/◌, ◌≤◌, ◌≡◌, ◌≢◌, refl, sym, ◌∙◌, none, some, some-injective, List, [], ◌∷◌, arith,
  length, get_elem?_bound,
}
use snip20_reference_impl.Common.Bytes.{Bytes}
use snip20_reference_impl.Outcome.{ok}
use snip20_reference_impl.Platform.{Platform, Documented}
use snip20_reference_impl.State.{Storage}
use snip20_reference_impl.Btbe.Types.{BtbeBucket, BitwiseTrieNode}
use snip20_reference_impl.Btbe.Entry.{StoredEntry, balance, impossible_addr}
use snip20_reference_impl.Btbe.Bundles.{bucketing_salt_bytes}
use snip20_reference_impl.Btbe.Bucket.Matches.{matches}
use snip20_reference_impl.Btbe.Bucket.Invariant.{IsBucket, find_none, find_one}
use snip20_reference_impl.Btbe.Trie.{node_bucket, locate_btbe_node, stored_entry}
use snip20_reference_impl.Btbe.Trie.Locate.{
  Walk, at_leaf, descend, locate_loop_finds, locate_btbe_node_exact,
}

-- The hash of an address under the contract's secret.
abbrev pub hash_of : {p : Platform} → Documented p → Bytes → Bytes → Bytes
hash_of doc secret a = (doc.hkdf_sha_256_total bucketing_salt_bytes secret a).0

-- Ids are counted, a bucket belongs to one leaf, a child is one bit deeper than its parent, every leaf
-- has its bucket in storage, and the walk of every hash from the root comes to a leaf.
pub record IsTrie (p : Platform) (secret : Bytes) (s : Storage) : Type 0 where
  pub secret_stored : s.internal_secret_sensitive ≡ some secret
  pub root : BitwiseTrieNode
  pub root_stored : s.btbe_trie_nodes 1 ≡ some root
  pub nodes : ℕ
  pub nodes_counted : s.btbe_trie_nodes_count ≡ some nodes
  pub nodes_below : (id : ℕ) (n : BitwiseTrieNode) → s.btbe_trie_nodes id ≡ some n → id ≤ nodes
  pub children_below :
      (id : ℕ) (n : BitwiseTrieNode)
      → s.btbe_trie_nodes id ≡ some n
      → n.bucket ≡ 0
      → (n.left ≤ nodes) × (n.right ≤ nodes)
  pub buckets : ℕ
  pub buckets_counted : s.btbe_buckets_count ≡ some buckets
  pub buckets_below :
      (id : ℕ) (n : BitwiseTrieNode) → s.btbe_trie_nodes id ≡ some n → n.bucket ≤ buckets
  pub owner : ℕ → ℕ
  pub owned :
      (id : ℕ) (n : BitwiseTrieNode)
      → s.btbe_trie_nodes id ≡ some n
      → n.bucket ≢ 0
      → owner n.bucket ≡ id
  pub depth : ℕ → ℕ
  pub depth_root : depth 1 ≡ 0
  pub depth_child :
      (id : ℕ) (n : BitwiseTrieNode)
      → s.btbe_trie_nodes id ≡ some n
      → n.bucket ≡ 0
      → (depth n.left ≡ suc (depth id)) × (depth n.right ≡ suc (depth id))
  pub leaves :
      (id : ℕ) (n : BitwiseTrieNode)
      → s.btbe_trie_nodes id ≡ some n
      → n.bucket ≢ 0
      → (b : BtbeBucket) × (s.btbe_buckets n.bucket ≡ some b) × IsBucket p b
  pub walks :
      (hash : Bytes)
      → length hash ≡ 32
      → (last : BitwiseTrieNode) × (id : ℕ) × (pos : ℕ) × Walk s hash root 1 0 last id pos

-- The walk of a hash from the root ends at the leaf `last`.
pub record Ending (s : Storage) (hash : Bytes) (last : BitwiseTrieNode) (id pos : ℕ) : Type 0 where
  pub top : BitwiseTrieNode
  pub top_stored : s.btbe_trie_nodes 1 ≡ some top
  pub walk : Walk s hash top 1 0 last id pos

-- In the bucket of the leaf of a hash, the address has the entries `es`.
pub record Has (s : Storage) (hash a : Bytes) (es : List StoredEntry) : Type 0 where
  pub last : BitwiseTrieNode
  pub id : ℕ
  pub pos : ℕ
  pub ending : Ending s hash last id pos
  pub bucket : BtbeBucket
  pub loaded : s.btbe_buckets last.bucket ≡ some bucket
  pub entries : matches a bucket.entries ≡ es

pub Walk-leaf :
    {s : Storage} {hash : Bytes} {node last : BitwiseTrieNode} {id pos last_id last_pos : ℕ}
    → Walk s hash node id pos last last_id last_pos
    → last.bucket ≢ 0
Walk-leaf (at_leaf ne) = ne
Walk-leaf (descend e b c q w) = Walk-leaf w

pub Walk-stored :
    {s : Storage} {hash : Bytes} {node last : BitwiseTrieNode} {id pos last_id last_pos : ℕ}
    → s.btbe_trie_nodes id ≡ some node
    → Walk s hash node id pos last last_id last_pos
    → s.btbe_trie_nodes last_id ≡ some last
Walk-stored h (at_leaf ne) = h
Walk-stored h (descend e b c q w) = Walk-stored q w

-- A walk that starts at a leaf ends there.
pub Walk-from_leaf :
    {s : Storage} {hash : Bytes} {node last : BitwiseTrieNode} {id pos last_id last_pos : ℕ}
    → node.bucket ≢ 0
    → Walk s hash node id pos last last_id last_pos
    → last_id ≡ id
Walk-from_leaf h (at_leaf ne) = refl
Walk-from_leaf h (descend e b c q w) = absurd (h e)

-- A walk reads no bit behind its hash.
pub Walk-bound :
    {s : Storage} {hash : Bytes} {node last : BitwiseTrieNode} {id pos last_id last_pos : ℕ}
    → length hash ≡ 32
    → pos ≤ 256
    → Walk s hash node id pos last last_id last_pos
    → last_pos ≤ 256
Walk-bound n h (at_leaf ne) = h
Walk-bound {hash = hash} n h (descend {bit_pos = bit_pos} e b c q w) =
    let within = get_elem?_bound hash (bit_pos / 8) b in Walk-bound n (omega arith) w

-- What is stored for every node that a walk passes stays stored.
pub Walk-mono :
    {s : Storage} (s' : Storage) {hash : Bytes} {node last : BitwiseTrieNode}
    {id pos last_id last_pos : ℕ}
    → ((i : ℕ) (n : BitwiseTrieNode) → s.btbe_trie_nodes i ≡ some n → s'.btbe_trie_nodes i ≡ some n)
    → Walk s hash node id pos last last_id last_pos
    → Walk s' hash node id pos last last_id last_pos
Walk-mono s' h (at_leaf ne) = at_leaf ne
Walk-mono s' h (descend {next = next} {next_id = next_id} e b c q w) =
    descend e b c (h next_id next q) (Walk-mono s' h w)

module _ {p : Platform} {secret : Bytes} {s : Storage} (t : IsTrie p secret s) where
  pub Walk-depth :
      {hash : Bytes} {node last : BitwiseTrieNode} {id pos last_id last_pos : ℕ}
      → s.btbe_trie_nodes id ≡ some node
      → t.depth id ≡ pos
      → Walk s hash node id pos last last_id last_pos
      → t.depth last_id ≡ last_pos
  Walk-depth h d (at_leaf ne) = d
  Walk-depth {node = node} {id = id} h d
        (descend {bit_pos = bit_pos} {byte = byte} {next_id = next_id} e b c q w) =
      let (dl, dr) = t.depth_child id node h e in
      let deeper : t.depth next_id ≡ suc bit_pos = ground arith in Walk-depth q deeper w

  pub Ending-depth :
      {hash : Bytes} {last : BitwiseTrieNode} {id pos : ℕ}
      → Ending s hash last id pos
      → t.depth id ≡ pos
  Ending-depth e = Walk-depth e.top_stored t.depth_root e.walk

  pub Ending-stored :
      {hash : Bytes} {last : BitwiseTrieNode} {id pos : ℕ}
      → Ending s hash last id pos
      → s.btbe_trie_nodes id ≡ some last
  Ending-stored e = Walk-stored e.top_stored e.walk

-- A hash ends at one leaf only.
pub Ending-unique :
    {s : Storage} {hash : Bytes} {last last' : BitwiseTrieNode} {id pos id' pos' : ℕ}
    → length hash ≡ 32
    → Ending s hash last id pos
    → Ending s hash last' id' pos'
    → (last ≡ last') × (id ≡ id') × (pos ≡ pos')
Ending-unique {s} {hash} n e f =
    let same : e.top ≡ f.top = some-injective e.top f.top (sym e.top_stored ∙ f.top_stored) in
    let a = locate_loop_finds 257 s hash n (omega arith) (omega arith) e.walk in
    let b = locate_loop_finds 257 s hash n (omega arith) (omega arith) f.walk in
    let b' = rw (← same) at b in (cc, cc, cc)

module _ (p : Platform) (doc : Documented p) (secret a : Bytes) {s : Storage} where
  pub locate-Ending :
      {last : BitwiseTrieNode} {id pos : ℕ}
      → s.internal_secret_sensitive ≡ some secret
      → Ending s (hash_of doc secret a) last id pos
      → locate_btbe_node p a s ≡ ok (last, id, pos)
  locate-Ending {last} {id} {pos} h e =
      let (hash, hashed, n) = doc.hkdf_sha_256_total bucketing_salt_bytes secret a in
      (locate_btbe_node_exact p doc a s h hashed e.top_stored).1 last id pos e.walk

  -- What is read for an address: nothing, or its only entry.
  pub Has-stored_entry :
      {es : List StoredEntry}
      → s.internal_secret_sensitive ≡ some secret
      → Has s (hash_of doc secret a) a es
      → (es ≡ [] → stored_entry p a s ≡ ok none)
        × ((e : StoredEntry) → es ≡ e ∷ [] → stored_entry p a s ≡ ok (some e))
  unfolding stored_entry node_bucket
  Has-stored_entry h has =
      let located = locate-Ending h has.ending in
      let leaf = Walk-leaf has.ending.walk in
      (
        λ empty.
            let found = find_none p doc has.bucket a (has.entries ∙ empty) in
            ground (arith, located, has.loaded, found),
        λ e one.
            let (i, found, g, q) = find_one p doc has.bucket a e (has.entries ∙ one) in
            ground (arith, located, has.loaded, found),
      )

-- The balance of the entries of an address.
abbrev pub balance_in : List StoredEntry → ℕ
balance_in [] = 0
balance_in (e ∷ es) = balance e

-- The balances in the trie are `held`.
abbrev pub Ledger : {p : Platform} → Documented p → Bytes → Storage → (Bytes → ℕ) → Type 0
Ledger doc secret s held =
    (a : Bytes)
    → a ≢ impossible_addr
    → (es : List StoredEntry) × Has s (hash_of doc secret a) a es × (balance_in es ≡ held a)
