-- ===== src/Dwb/Types.antt =====
-- The stored data of src/dwb.rs: the buffer, the nodes of transaction lists, and their bundles.
use snip20_reference_impl.Common.{ℕ, List}
use snip20_reference_impl.Dwb.Entry.{DwbEntry}

-- Entry 0 is a dummy; `empty_space_counter` is a u16.
pub record DelayedWriteBuffer : Type 0 where
  pub empty_space_counter : ℕ
  pub entries : List DwbEntry

-- `next` is the id of the next node in the list, 0 at its end.
pub record TxNode : Type 0 where
  pub tx_id : ℕ
  pub next : ℕ

pub record TxBundle : Type 0 where
  pub head_node : ℕ
  pub list_len : ℕ
  pub offset : ℕ
