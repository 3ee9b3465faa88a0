-- ===== src/Dwb/Buffer/Full.antt =====
-- What `add_recipient` does with a recipient whose list of transactions is full.
use snip20_reference_impl.Common.{ℕ, ◌≡◌, ap, ◌∙◌, some, All, arith, length, get_elem?}
use snip20_reference_impl.Common.Bytes.{Bytes, IsByte}
use snip20_reference_impl.Outcome.{err, overflow}
use snip20_reference_impl.Word.{u16_max}
use snip20_reference_impl.Platform.{Platform}
use snip20_reference_impl.State.{Storage}
use snip20_reference_impl.Dwb.Types.{DelayedWriteBuffer}
use snip20_reference_impl.Dwb.Entry.{DwbEntry, list_len}
use snip20_reference_impl.Dwb.Entry.Fields.{
  IsEntry, View, view-set_recipient, set_recipient-IsEntry,
}
use snip20_reference_impl.Dwb.Nodes.Chain.{add_tx_node_full}
use snip20_reference_impl.Dwb.Buffer.{recipient_match, add_recipient}

-- For an address of 20 bytes and a count of nodes in storage, whatever the amount, a recipient whose
-- entry in the buffer holds as many transactions as a list can
-- hold cannot be credited: the count overflows, before the test for room is reached.
pub add_recipient_full :
    (p : Platform) (b : DelayedWriteBuffer) (recipient : Bytes) (tx_id amount n : ℕ) (s : Storage)
    {current : DwbEntry}
    → length recipient ≡ 20
    → All IsByte recipient
    → s.tx_nodes_count ≡ some n
    → get_elem? b.entries (recipient_match p b.entries recipient) ≡ some current
    → IsEntry current
    → list_len current ≡ u16_max
    → add_recipient p b recipient tx_id amount s ≡ err overflow
unfolding add_recipient
add_recipient_full p b recipient tx_id amount n s {current} len bs c g w full =
    let (named, q, v) = view-set_recipient recipient current w len in
    let named_full : list_len named ≡ u16_max = ap (λ (x : View). x.list_len) v ∙ full in
    let named_entry = set_recipient-IsEntry recipient current w bs q in
    ground (arith, g, q, add_tx_node_full tx_id named s named_entry c named_full)
