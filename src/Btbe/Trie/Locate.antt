-- ===== src/Btbe/Trie/Locate.antt =====
-- The walk of `locate_btbe_node`: it ends, and where.
use native.Mathlib.Numerals.{add-one}
use snip20_reference_impl.Common.{
  ℕ, zero, suc, ◌+◌, ◌/◌, ◌≤◌, ◌≡◌, ◌≢◌, refl, ◌∙◌, ◌⊎◌, inl, inr, none, some, arith, length,
  get_elem?, get_elem?_bound, Bool-cases, Option-cases, ◌==◌, if◌then◌else◌,
}
use snip20_reference_impl.Common.Bytes.{Bytes}
use snip20_reference_impl.Outcome.{Result, ok, err, ◌>>=◌, index, not_found, index_out_of_bounds}
use snip20_reference_impl.Platform.{Platform, Documented}
use snip20_reference_impl.State.{Storage}
use snip20_reference_impl.Btbe.Types.{BitwiseTrieNode}
use snip20_reference_impl.Btbe.Bundles.{bit_of_byte, bucketing_salt_bytes}
use snip20_reference_impl.Btbe.Trie.{load_node, locate_loop, locate_btbe_node, locate_fuel}

-- The child that the walk takes at a bit position.
abbrev pub child : Bytes → BitwiseTrieNode → ℕ → ℕ → ℕ
child hash node byte bit_pos = if bit_of_byte byte bit_pos == 0 then node.left else node.right

-- The walk of a hash from a node down to a leaf, a node at each bit position.
pub data Walk (s : Storage) (hash : Bytes)
    : BitwiseTrieNode → ℕ → ℕ → BitwiseTrieNode → ℕ → ℕ → Type 0 where
  at_leaf :
      {node : BitwiseTrieNode} {id bit_pos : ℕ}
      → node.bucket ≢ 0
      → Walk s hash node id bit_pos node id bit_pos
  descend :
      {node next last : BitwiseTrieNode} {id bit_pos last_id last_pos byte next_id : ℕ}
      → node.bucket ≡ 0
      → get_elem? hash (bit_pos / 8) ≡ some byte
      → next_id ≡ child hash node byte bit_pos
      → s.btbe_trie_nodes next_id ≡ some next
      → Walk s hash next next_id (suc bit_pos) last last_id last_pos
      → Walk s hash node id bit_pos last last_id last_pos

pub load_node-some :
    (id : ℕ) (s : Storage) {node : BitwiseTrieNode}
    → s.btbe_trie_nodes id ≡ some node
    → load_node id s ≡ ok node
unfolding load_node
load_node-some id s e = rw e

load_node-none :
    (id : ℕ) (s : Storage) → s.btbe_trie_nodes id ≡ none → load_node id s ≡ err not_found
unfolding load_node
load_node-none id s e = rw e

locate_step :
    (fuel : ℕ) (s : Storage) (hash : Bytes) (node : BitwiseTrieNode) (id bit_pos : ℕ)
    → node.bucket ≡ 0
    → locate_loop (suc fuel) hash node id bit_pos s ≡ (
        index hash (bit_pos / 8) >>= λ byte. load_node (child hash node byte bit_pos) s >>= λ next.
        locate_loop fuel hash next (child hash node byte bit_pos) (bit_pos + 1) s)
unfolding locate_loop
locate_step fuel s hash node id bit_pos e = ground arith

locate_leaf :
    (fuel : ℕ) (s : Storage) (hash : Bytes) (node : BitwiseTrieNode) (id bit_pos : ℕ)
    → node.bucket ≢ 0
    → locate_loop (suc fuel) hash node id bit_pos s ≡ ok (node, id, bit_pos)
unfolding locate_loop
locate_leaf fuel s hash node id bit_pos e = ground arith

-- What a walk that is started may return: the end of a walk, or a missing node or a bit behind the
-- hash, but never a lack of fuel.
abbrev pub Ends :
    Storage → Bytes → BitwiseTrieNode → ℕ → ℕ → Result (BitwiseTrieNode × ℕ × ℕ) → Type 0
Ends s hash node id bit_pos (ok (last, last_id, last_pos)) =
    Walk s hash node id bit_pos last last_id last_pos
Ends s hash node id bit_pos (err e) = (e ≡ not_found) ⊎ (e ≡ index_out_of_bounds)

-- From the child on, for the outcome `r` there.
descend-Ends :
    (s : Storage) (hash : Bytes) (node next : BitwiseTrieNode) (id bit_pos byte : ℕ)
    (r : Result (BitwiseTrieNode × ℕ × ℕ))
    → node.bucket ≡ 0
    → get_elem? hash (bit_pos / 8) ≡ some byte
    → s.btbe_trie_nodes (child hash node byte bit_pos) ≡ some next
    → Ends s hash next (child hash node byte bit_pos) (suc bit_pos) r
    → Ends s hash node id bit_pos r
descend-Ends s hash node next id bit_pos byte (ok (last, last_id, last_pos)) e b n w =
    descend e b refl n w
descend-Ends s hash node next id bit_pos byte (err x) e b n w = w

locate_loop-Ends :
    (fuel : ℕ) (s : Storage) (hash : Bytes) (node : BitwiseTrieNode) (id bit_pos : ℕ)
    → length hash ≡ 32
    → bit_pos ≤ 256
    → 257 ≤ bit_pos + fuel
    → Ends s hash node id bit_pos (locate_loop fuel hash node id bit_pos s)
locate_loop-Ends zero s hash node id bit_pos n h f = absurd (omega arith)
locate_loop-Ends (suc fuel) s hash node id bit_pos n h f = elim (Bool-cases (node.bucket == 0)) [
  | inr leaf ↦
      let ne : node.bucket ≢ 0 = ground arith in
      rw (locate_leaf fuel s hash node id bit_pos ne) (at_leaf ne)
  | inl branch ↦
      let e : node.bucket ≡ 0 = ground arith in
      rw (locate_step fuel s hash node id bit_pos e)
        (elim (Option-cases (get_elem? hash (bit_pos / 8))) [
          | inl past ↦ rw past (inr refl)
          | inr (byte, b) ↦
              let k = child hash node byte bit_pos in
              let within = get_elem?_bound hash (bit_pos / 8) b in
              rw b (elim (Option-cases (s.btbe_trie_nodes k)) [
                | inl missing ↦ rw (load_node-none k s missing) (inl refl)
                | inr (next, q) ↦ rw (load_node-some k s q) (
                    descend-Ends s hash node next id bit_pos byte _ e b q (
                      rw add-one (
                        locate_loop-Ends fuel s hash next k (suc bit_pos) n (omega arith)
                          (omega arith))))
              ])
        ])
]

pub locate_loop_finds :
    {node last : BitwiseTrieNode} {id bit_pos last_id last_pos : ℕ} (fuel : ℕ) (s : Storage)
    (hash : Bytes)
    → length hash ≡ 32
    → bit_pos ≤ 256
    → 257 ≤ bit_pos + fuel
    → Walk s hash node id bit_pos last last_id last_pos
    → locate_loop fuel hash node id bit_pos s ≡ ok (last, last_id, last_pos)
locate_loop_finds zero s hash n h f w = absurd (omega arith)
locate_loop_finds (suc fuel) s hash n h f (at_leaf {node} {id} {bit_pos} ne) =
    locate_leaf fuel s hash node id bit_pos ne
locate_loop_finds (suc fuel) s hash n h f
      (descend {node} {next} {last} {id} {bit_pos} {last_id} {last_pos} {byte} {next_id} e b c q
        w) =
    let within = get_elem?_bound hash (bit_pos / 8) b in
    rw (locate_step fuel s hash node id bit_pos e, b, ← c, load_node-some next_id s q, add-one)
      (locate_loop_finds fuel s hash n (omega arith) (omega arith) w)

module _ (p : Platform) (doc : Documented p) (address : Bytes) (s : Storage) where
  locate_btbe_node-eq-loop :
      {secret hash : Bytes} {root : BitwiseTrieNode}
      → s.internal_secret_sensitive ≡ some secret
      → p.hkdf_sha_256 bucketing_salt_bytes secret address 32 ≡ ok hash
      → s.btbe_trie_nodes 1 ≡ some root
      → locate_btbe_node p address s ≡ locate_loop locate_fuel hash root 1 0 s
  unfolding locate_btbe_node
  locate_btbe_node-eq-loop hs hh hr = ground (arith, load_node-some 1 s hr)

  -- With the secret and the root in storage, `locate_btbe_node` comes to an end, with the leaf of the
  -- walk of the address's hash, or with an error for a missing node or for a bit behind the hash; and
  -- every walk from the root to a leaf is found.
  pub locate_btbe_node_exact :
      {secret hash : Bytes} {root : BitwiseTrieNode}
      → s.internal_secret_sensitive ≡ some secret
      → p.hkdf_sha_256 bucketing_salt_bytes secret address 32 ≡ ok hash
      → s.btbe_trie_nodes 1 ≡ some root
      → Ends s hash root 1 0 (locate_btbe_node p address s)
        × ((last : BitwiseTrieNode) (last_id last_pos : ℕ)
            → Walk s hash root 1 0 last last_id last_pos
            → locate_btbe_node p address s ≡ ok (last, last_id, last_pos))
  locate_btbe_node_exact {secret} {hash} {root} hs hh hr =
      let (hash', e, n') = doc.hkdf_sha_256_total bucketing_salt_bytes secret address in
      let same : hash' ≡ hash = cc in
      let n : length hash ≡ 32 = rw same at n' in
      let start : locate_btbe_node p address s ≡ locate_loop locate_fuel hash root 1 0 s =
        locate_btbe_node-eq-loop hs hh hr in
      (
        rw start (locate_loop-Ends locate_fuel s hash root 1 0 n (omega arith) (omega arith)),
        λ last last_id last_pos w.
            start ∙ locate_loop_finds locate_fuel s hash n (omega arith) (omega arith) w,
      )
