-- ===== src/Btbe/History.antt =====
-- The methods of `StoredEntry` of src/btbe.rs that write its history: pushing a bundle, the entry
-- made from a buffer entry, and the merge of a buffer entry.
pub mod Merge
pub mod Balance
pub mod Extends
use snip20_reference_impl.Common.{ℕ, Option, ◌==◌}
use snip20_reference_impl.Outcome.{
  Result, ok, err, or_err, insufficient_funds_creating, insufficient_funds_merging,
  missing_tx_bundle,
}
use snip20_reference_impl.Word.{
  u32_max, add_word, checked_sub, saturating_add, wrapping_sub_u32, bool_word,
}
use snip20_reference_impl.ConstantTime.{constant_time_if_else_u32}
use snip20_reference_impl.Dwb.Entry as Pending
use snip20_reference_impl.Dwb.Entry.{DwbEntry}
use snip20_reference_impl.Dwb.Types.{TxBundle}
use snip20_reference_impl.State.{M, ◌>>=◌, ◌>>◌, pure, lift, reads, modify, update_bytes, update}
use snip20_reference_impl.State.Supply.{safe_add_u64}
use snip20_reference_impl.Btbe.Entry.{
  StoredEntry, new, address, balance, set_balance, history_len, set_history_len,
}
use snip20_reference_impl.Btbe.Bundles.{amount_u64, get_tx_bundle_at_unchecked}

unfoldable pub set_tx_bundle_at_unchecked : StoredEntry → ℕ → TxBundle → M (Unit {0})
set_tx_bundle_at_unchecked e pos bundle = modify (λ s. record s {
  btbe_entry_history =
      update_bytes s.btbe_entry_history (address e)
        (update (s.btbe_entry_history (address e)) pos bundle);
})

-- A bundle with no head node is a ghost: it is stored, does not count, and is overwritten by the
-- next one.
unfoldable pub push_tx_bundle : TxBundle → StoredEntry → M StoredEntry
unfolding set_tx_bundle_at_unchecked
push_tx_bundle bundle e = do
  let len = history_len e
  set_tx_bundle_at_unchecked e len bundle
  len_add ← lift (constant_time_if_else_u32 (bool_word (bundle.head_node == 0)) 0 1)
  pure (set_history_len (saturating_add u32_max len len_add) e)

-- `StoredEntry::from`
unfoldable pub from_dwb_entry : DwbEntry → Option ℕ → M StoredEntry
unfolding push_tx_bundle amount_u64
from_dwb_entry dwb_entry spent = do
  entry ← lift (new (Pending.recipient dwb_entry))
  amount_spent ← lift (amount_u64 spent)
  new_balance ← lift (
      or_err (checked_sub (Pending.amount dwb_entry) amount_spent)
        (insufficient_funds_creating (Pending.amount dwb_entry) amount_spent))
  push_tx_bundle
      (record {
        head_node = Pending.head_node dwb_entry;
        list_len = Pending.list_len dwb_entry;
        offset = 0;
      })
      (set_balance new_balance entry)

or_missing : {A : Type 0} → Result A → Result A
or_missing (ok a) = ok a
or_missing (err e) = err missing_tx_bundle

unfoldable pub merge_dwb_entry : DwbEntry → Option ℕ → StoredEntry → M StoredEntry
unfolding push_tx_bundle amount_u64 get_tx_bundle_at_unchecked or_missing safe_add_u64
merge_dwb_entry dwb_entry spent e = do
  let total = (safe_add_u64 (balance e) (Pending.amount dwb_entry)).0
  amount_spent ← lift (amount_u64 spent)
  new_balance ←
      lift (or_err (checked_sub total amount_spent) (insufficient_funds_merging total amount_spent))
  let e' = set_balance new_balance e
  let len = history_len e'
  let empty_history = bool_word (len == 0)
  bundle_pos ← lift (constant_time_if_else_u32 empty_history 0 (wrapping_sub_u32 len 1))
  last_tx_bundle ← reads (λ s. or_missing (get_tx_bundle_at_unchecked e' bundle_pos s))
  next_offset ← lift (add_word u32_max last_tx_bundle.offset last_tx_bundle.list_len)
  bundle_offset ← lift (constant_time_if_else_u32 empty_history 0 next_offset)
  push_tx_bundle
      (record {
        head_node = Pending.head_node dwb_entry;
        list_len = Pending.list_len dwb_entry;
        offset = bundle_offset;
      })
      e'
