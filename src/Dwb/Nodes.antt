-- ===== src/Dwb/Nodes.antt =====
-- The linked lists of transaction nodes of src/dwb.rs: storing a node, adding one in front of an
-- entry's list, adding an amount to an entry, and reading a list.
pub mod Chain
pub mod Reading
use snip20_reference_impl.Common.{
  ℕ, zero, suc, ◌+◌, Option, none, some, List, [], ◌∷◌, ltb, Bool, true, false, ◌==◌, if◌then◌else◌,
}
use snip20_reference_impl.Outcome.{Result, ok, err, or_err, not_found, out_of_fuel}
use snip20_reference_impl.Outcome.{◌>>=◌ as bind}
use snip20_reference_impl.Word.{u16_max, u64_max, add_word}
use snip20_reference_impl.Platform.{Platform}
use snip20_reference_impl.TxHistory.{Tx, into_humanized}
use snip20_reference_impl.Btbe.Bundles.{amount_u64}
use snip20_reference_impl.State.{Storage, M, ◌>>=◌, ◌>>◌, pure, lift, reads, modify, update}
use snip20_reference_impl.State.Supply.{safe_add_u64}
use snip20_reference_impl.Dwb.Types.{TxNode}
use snip20_reference_impl.Dwb.Entry.{
  DwbEntry, amount, set_amount, head_node, set_head_node, list_len, set_list_len,
}

-- Ids start at 1.
abbrev pub next_id : Option ℕ → Result ℕ
next_id none = ok 1
next_id (some count) = add_word u64_max count 1

unfoldable pub store_new_tx_node : TxNode → M ℕ
store_new_tx_node tx_node = do
  tx_nodes_serial_id ← reads (λ s. next_id s.tx_nodes_count)
  modify (λ s. record s { tx_nodes = update s.tx_nodes tx_nodes_serial_id tx_node })
  modify (λ s. record s { tx_nodes_count = some tx_nodes_serial_id })
  pure tx_nodes_serial_id

-- The new head node, and the entry after it.
unfoldable pub add_tx_node : ℕ → DwbEntry → M (ℕ × DwbEntry)
unfolding store_new_tx_node
add_tx_node tx_id e = do
  new_node ← store_new_tx_node (record { tx_id = tx_id; next = head_node e })
  let e' = set_head_node new_node e
  new_len ← lift (add_word u16_max (list_len e') 1)
  pure (new_node, set_list_len new_len e')

unfoldable pub add_amount : ℕ → DwbEntry → Result (ℕ × DwbEntry)
unfolding amount_u64 safe_add_u64
add_amount add_tx_amount e = bind (amount_u64 (some add_tx_amount)) (λ add_tx_amount_u64.
    let total = (safe_add_u64 (amount e) add_tx_amount_u64).0 in ok (total, set_amount total e))

module _ (p : Platform) where
  -- The loop of `TxNode::as_vec` from a node on, its results in order.
  unfoldable pub as_vec_loop : ℕ → TxNode → Storage → Result (List Tx)
  as_vec_loop zero node s = err out_of_fuel
  as_vec_loop (suc fuel) node s = bind (or_err (s.transactions node.tx_id) not_found) (λ stored_tx.
      bind (into_humanized p stored_tx node.tx_id) (λ tx. elim (ltb 0 node.next) [
        | false ↦ ok (tx ∷ [])
        | true ↦
            bind (or_err (s.tx_nodes node.next) not_found)
              (λ next_node. bind (as_vec_loop fuel next_node s) (λ rest. ok (tx ∷ rest)))
      ]))

  -- Each node points to an older one, so a list has no more nodes than the first link's id and one.
  unfoldable pub as_vec : TxNode → Storage → Result (List Tx)
  unfolding as_vec_loop
  as_vec node s = as_vec_loop (suc node.next) node s
