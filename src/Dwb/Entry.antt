-- ===== src/Dwb/Entry.antt =====
-- `DelayedWriteBufferEntry` of src/dwb.rs: 35 bytes, of which 20 are the recipient's canonical
-- address, 8 the amount, 5 the id of the head node and 2 the length of the list of nodes. The
-- array's length is fixed by its type, so the conversions of its slices never fail.
pub mod Fields
use snip20_reference_impl.Common.{
  ℕ, ◌+◌, ◌-◌, List, [], ◌∷◌, ◌++◌, length, drop, replicate, ◌==◌, if◌then◌else◌,
}
use snip20_reference_impl.Common.Bytes.{Bytes, slice, copy_into, to_be_bytes, from_be_bytes}
use snip20_reference_impl.Word.{u64_max, u16_max, saturating_add}
use snip20_reference_impl.Outcome.{
  Error, Result, ok, err, ◌>>=◌, invalid_recipient_length, set_recipient_error,
}

abbrev pub dwb_recipient_bytes : ℕ
dwb_recipient_bytes = 20

abbrev pub dwb_amount_bytes : ℕ
dwb_amount_bytes = 8

abbrev pub dwb_head_node_bytes : ℕ
dwb_head_node_bytes = 5

abbrev pub dwb_list_len_bytes : ℕ
dwb_list_len_bytes = 2

abbrev pub dwb_entry_bytes : ℕ
dwb_entry_bytes = dwb_recipient_bytes + dwb_amount_bytes + dwb_head_node_bytes + dwb_list_len_bytes

abbrev pub zero_addr : Bytes
zero_addr = replicate dwb_recipient_bytes 0

abbrev pub DwbEntry : Type 0
DwbEntry = Bytes

unfoldable pub new : Bytes → Result DwbEntry
new address =
    if length address == dwb_recipient_bytes
    then ok (copy_into 0 address (replicate dwb_entry_bytes 0))
    else err invalid_recipient_length

-- `recipient_slice`, and `recipient`, its copy
unfoldable pub recipient : DwbEntry → Bytes
recipient e = slice 0 dwb_recipient_bytes e

unfoldable pub set_recipient : Bytes → DwbEntry → Result DwbEntry
set_recipient val e =
    if length val == dwb_recipient_bytes then ok (copy_into 0 val e) else err set_recipient_error

unfoldable pub amount : DwbEntry → ℕ
amount e = from_be_bytes (slice dwb_recipient_bytes dwb_amount_bytes e)

unfoldable pub set_amount : ℕ → DwbEntry → DwbEntry
set_amount val e = copy_into dwb_recipient_bytes (to_be_bytes 8 val) e

-- The five bytes stand behind three zero bytes in a u64.
unfoldable pub head_node : DwbEntry → ℕ
head_node e = from_be_bytes (
    replicate (8 - dwb_head_node_bytes) 0
    ++ slice (dwb_recipient_bytes + dwb_amount_bytes) dwb_head_node_bytes e)

-- The three high bytes of the u64 are dropped.
unfoldable pub set_head_node : ℕ → DwbEntry → DwbEntry
set_head_node val e =
    copy_into (dwb_recipient_bytes + dwb_amount_bytes)
      (drop (8 - dwb_head_node_bytes) (to_be_bytes 8 val)) e

unfoldable pub list_len : DwbEntry → ℕ
list_len e =
    from_be_bytes
      (slice (dwb_recipient_bytes + dwb_amount_bytes + dwb_head_node_bytes) dwb_list_len_bytes e)

unfoldable pub set_list_len : ℕ → DwbEntry → DwbEntry
set_list_len val e =
    copy_into (dwb_recipient_bytes + dwb_amount_bytes + dwb_head_node_bytes) (to_be_bytes 2 val) e
