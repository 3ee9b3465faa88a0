-- ===== src/Dwb/Frame.antt =====
-- What the buffer's operations leave as it is.
use snip20_reference_impl.Common.{arith, ℕ, Bool, true, false}
use snip20_reference_impl.Common.Bytes.{Bytes}
use snip20_reference_impl.Platform.{Platform}
use snip20_reference_impl.State.Frame.{Keeps, frame, rules, pure-Keeps}
use snip20_reference_impl.Btbe.Frame.{settle_dwb_entry-Keeps}
use snip20_reference_impl.Dwb.Entry.{DwbEntry}
use snip20_reference_impl.Dwb.Types.{DelayedWriteBuffer, TxNode}
use snip20_reference_impl.Dwb.Nodes.{store_new_tx_node, add_tx_node}
use snip20_reference_impl.Dwb.Buffer.{
  draw_in_range, release_dwb_recipient, repeat_tx_node, settle_sender_or_owner_account,
  choose_indexes, add_recipient,
}

store_new_tx_node-Keeps : (node : TxNode) → Keeps rules (store_new_tx_node node)
unfolding store_new_tx_node
store_new_tx_node-Keeps node = search frame depth 12

add_tx_node-Keeps : (tx_id : ℕ) (e : DwbEntry) → Keeps rules (add_tx_node tx_id e)
unfolding add_tx_node
add_tx_node-Keeps tx_id e = search (frame, store_new_tx_node-Keeps)

draw_in_range-Keeps : (a b : ℕ) → Keeps rules (draw_in_range a b)
unfolding draw_in_range
draw_in_range-Keeps a b = record { kept = λ s r s' q. ground arith }

module _ (p : Platform) where
  release_dwb_recipient-Keeps :
      (b : DelayedWriteBuffer) (address : Bytes) → Keeps rules (release_dwb_recipient p b address)
  unfolding release_dwb_recipient
  release_dwb_recipient-Keeps b address = search frame depth 15

  repeat_tx_node-Keeps :
      (again : Bool) (tx_id : ℕ) (e : DwbEntry) → Keeps rules (repeat_tx_node p again tx_id e)
  unfolding repeat_tx_node
  repeat_tx_node-Keeps true tx_id e = search (frame, add_tx_node-Keeps)
  repeat_tx_node-Keeps false tx_id e = pure-Keeps e

  pub settle_sender_or_owner_account-Keeps :
      (b : DelayedWriteBuffer) (address : Bytes) (tx_id amount : ℕ) (again : Bool)
      → Keeps rules (settle_sender_or_owner_account p b address tx_id amount again)
  unfolding settle_sender_or_owner_account
  settle_sender_or_owner_account-Keeps b address tx_id amount again =
      search
        (
          frame, release_dwb_recipient-Keeps, add_tx_node-Keeps, repeat_tx_node-Keeps,
          settle_dwb_entry-Keeps,
        )
        depth 15

  choose_indexes-Keeps :
      (b : DelayedWriteBuffer) (index : ℕ) → Keeps rules (choose_indexes p b index)
  unfolding choose_indexes
  choose_indexes-Keeps b index = search (frame, draw_in_range-Keeps) depth 30

  pub add_recipient-Keeps :
      (b : DelayedWriteBuffer) (address : Bytes) (tx_id amount : ℕ)
      → Keeps rules (add_recipient p b address tx_id amount)
  unfolding add_recipient
  add_recipient-Keeps b address tx_id amount =
      search (frame, add_tx_node-Keeps, choose_indexes-Keeps, settle_dwb_entry-Keeps) depth 20
