-- ===== src/Dwb/Nodes/Chain.antt =====
-- The linked list of an entry: what `add_tx_node` puts in front, and what `as_vec` reads.
use snip20_reference_impl.Common.{
  ℕ, ◌+◌, ◌%◌, ◌^◌, ◌<◌, ◌≤◌, ◌≡◌, refl, ap, ◌∙◌, Option, some, List, [], ◌∷◌, arith, length,
}
use snip20_reference_impl.Outcome.{ok, err, overflow}
use snip20_reference_impl.Word.{u16_max}
use snip20_reference_impl.State.{Storage, update}
use snip20_reference_impl.Dwb.Types.{TxNode}
use snip20_reference_impl.Dwb.Entry.{DwbEntry, head_node, set_head_node, list_len, set_list_len}
use snip20_reference_impl.Dwb.Entry.Fields.{
  IsEntry, View, view, view-set_head_node, view-set_list_len, set_head_node-IsEntry,
  set_list_len-IsEntry,
}
use snip20_reference_impl.Dwb.Nodes.{add_tx_node}

-- From the node `id` on, the list holds the transactions `txs`; each node is older than the one
-- before it.
pub data Chain (nodes : ℕ → Option TxNode) : ℕ → List ℕ → Type 0 where
  end : {id : ℕ} → id ≡ 0 → Chain nodes id []
  link :
      {id : ℕ} {node : TxNode} {txs : List ℕ}
      → 0 < id
      → nodes id ≡ some node
      → node.next < id
      → Chain nodes node.next txs
      → Chain nodes id (node.tx_id ∷ txs)

-- A node under a newer id does not touch the list.
Chain-update :
    {nodes : ℕ → Option TxNode} {id : ℕ} {txs : List ℕ} (k : ℕ) (new : TxNode)
    → Chain nodes id txs
    → id < k
    → Chain (update nodes k new) id txs
Chain-update k new (end e) h = end e
Chain-update {nodes} k new (link {id} pos q older rest) h =
    let same : update nodes k new id ≡ nodes id = ground arith in
    link pos (same ∙ q) older (Chain-update k new rest (omega arith))

-- The state after `add_tx_node`.
abbrev pub with_node : Storage → ℕ → TxNode → Storage
with_node s id node = record s { tx_nodes = update s.tx_nodes id node; tx_nodes_count = some id }

-- Before the 2 ^ 40th node and with room in the list, `add_tx_node` stores the transaction under the
-- next id, in front of the entry's list, and the entry changes in its head and its length alone.
pub add_tx_node_exact :
    (tx_id n : ℕ) (e : DwbEntry) (s : Storage)
    → IsEntry e
    → s.tx_nodes_count ≡ some n
    → n + 1 < 2 ^ 40
    → list_len e < u16_max
    → let id = n + 1 in
      let s' = with_node s id (record { tx_id = tx_id; next = head_node e }) in
      (e' : DwbEntry) × (add_tx_node tx_id e s ≡ ok ((id, e'), s'))
      × IsEntry e'
      × (view e' ≡ record (view e) { head_node = id; list_len = list_len e + 1 })
unfolding add_tx_node
add_tx_node_exact tx_id n e s h c small room =
    let id = n + 1 in
    let e1 = set_head_node id e in
    let v1 = view-set_head_node id e h in
    let w1 = set_head_node-IsEntry id e h in
    let len1 : list_len e1 ≡ list_len e = ap (λ (v : View). v.list_len) v1 in
    let e2 = set_list_len (list_len e + 1) e1 in
    let v2 = view-set_list_len (list_len e + 1) e1 w1 (omega arith) in
    let keep : id % 2 ^ 40 ≡ id = omega arith in
    (e2, ground (arith, len1), set_list_len-IsEntry (list_len e + 1) e1 w1, v2 ∙ cc (v1, keep))

-- An entry whose length counts its list: the list is a chain of older nodes.
pub record IsListed (s : Storage) (n : ℕ) (e : DwbEntry) (txs : List ℕ) : Type 0 where
  pub entry : IsEntry e
  pub count : s.tx_nodes_count ≡ some n
  pub older : head_node e ≤ n
  pub chain : Chain s.tx_nodes (head_node e) txs
  pub counted : length txs ≡ list_len e

-- Before the 2 ^ 40th node and with room in the list, adding a transaction to an entry that lists
-- `txs` gives an entry that lists it in front of them.
pub add_tx_node-IsListed :
    (tx_id n : ℕ) (e : DwbEntry) (s : Storage) (txs : List ℕ)
    → IsListed s n e txs
    → n + 1 < 2 ^ 40
    → list_len e < u16_max
    → (e' : DwbEntry) × (s' : Storage) × (add_tx_node tx_id e s ≡ ok ((n + 1, e'), s'))
      × IsListed s' (n + 1) e' (tx_id ∷ txs)
add_tx_node-IsListed tx_id n e s txs h small room =
    let node : TxNode = record { tx_id = tx_id; next = head_node e } in
    let (e', q, w, v) = add_tx_node_exact tx_id n e s h.entry h.count small room in
    let head : head_node e' ≡ n + 1 = ap (λ (x : View). x.head_node) v in
    let len : list_len e' ≡ list_len e + 1 = ap (λ (x : View). x.list_len) v in
    let k = h.older in
    (
      e',
      with_node s (n + 1) node,
      q,
      record {
        entry = w;
        count = refl;
        older = omega arith;
        chain = rw head (
            link (omega arith) (ground arith) (omega arith)
              (Chain-update (n + 1) node h.chain (omega arith)));
        counted = omega (arith, h.counted);
      },
    )

-- Where a node's list is full, adding to it overflows, whatever the storage.
pub add_tx_node_full :
    (tx_id : ℕ) (e : DwbEntry) (s : Storage) {n : ℕ}
    → IsEntry e
    → s.tx_nodes_count ≡ some n
    → list_len e ≡ u16_max
    → add_tx_node tx_id e s ≡ err overflow
unfolding add_tx_node
add_tx_node_full tx_id e s {n} h c full =
    let id = n + 1 in
    let len1 : list_len (set_head_node id e) ≡ list_len e =
      ap (λ (v : View). v.list_len) (view-set_head_node id e h) in
    ground (arith, len1)
