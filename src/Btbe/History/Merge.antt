-- ===== src/Btbe/History/Merge.antt =====
-- What merging an entry of the buffer does to a stored entry and its history.
use snip20_reference_impl.Common.{
  ℕ, ◌+◌, ◌-◌, ◌%◌, ◌^◌, ◌<◌, ◌≤◌, ◌≡◌, ◌≢◌, ap, ◌∙◌, Option, some, arith,
}
use snip20_reference_impl.Common.Bytes.{Bytes}
use snip20_reference_impl.Outcome.{ok}
use snip20_reference_impl.Word.{u32_max, u64_max, saturating_add}
use snip20_reference_impl.ConstantTime.{constant_time_if_else_u32, constant_time_if_else_u32-flag}
use snip20_reference_impl.State.{Storage, update, update_bytes}
use snip20_reference_impl.State.Supply.{safe_add_u64}
use snip20_reference_impl.Dwb.Types.{TxBundle}
use snip20_reference_impl.Dwb.Entry as Pending
use snip20_reference_impl.Dwb.Entry.{DwbEntry}
use snip20_reference_impl.Btbe.Entry.{
  StoredEntry, address, balance, set_balance, history_len, set_history_len,
}
use snip20_reference_impl.Btbe.Entry.Fields.{
  IsStoredEntry, View, view, view-set_balance, view-set_history_len, set_balance-IsStoredEntry,
  view_bounds,
}
use snip20_reference_impl.Btbe.Bundles.{amount_u64, get_tx_bundle_at, get_tx_bundle_at_unchecked}
use snip20_reference_impl.Btbe.History.{set_tx_bundle_at_unchecked, push_tx_bundle, merge_dwb_entry}

-- The storage with one more bundle of an account.
abbrev pub with_bundle : Storage → Bytes → ℕ → TxBundle → Storage
with_bundle s a pos bundle = record s {
  btbe_entry_history =
      update_bytes s.btbe_entry_history a (update (s.btbe_entry_history a) pos bundle);
}

-- A bundle with a head node is stored behind the others, and the length counts it.
pub push_tx_bundle_exact :
    (bundle : TxBundle) (e : StoredEntry) (s : Storage)
    → IsStoredEntry e
    → bundle.head_node ≢ 0
    → history_len e < u32_max
    → (e' : StoredEntry) × (push_tx_bundle bundle e s
        ≡ ok (e', with_bundle s (address e) (history_len e) bundle))
      × (view e' ≡ record (view e) { history_len = history_len e + 1 })
unfolding push_tx_bundle set_tx_bundle_at_unchecked
push_tx_bundle_exact bundle e s h head short =
    let e' = set_history_len (history_len e + 1) e in
    let one : constant_time_if_else_u32 0 0 1 ≡ ok 1 = constant_time_if_else_u32-flag 0 0 1 in
    (e', ground (arith, one), view-set_history_len (history_len e + 1) e h (omega arith))

push_tx_bundle_at :
    (bundle : TxBundle) (e : StoredEntry) (s : Storage) {a : Bytes} {n : ℕ}
    → address e ≡ a
    → history_len e ≡ n
    → IsStoredEntry e
    → bundle.head_node ≢ 0
    → n < u32_max
    → (e' : StoredEntry) × (push_tx_bundle bundle e s ≡ ok (e', with_bundle s a n bundle))
      × (view e' ≡ record (view e) { history_len = n + 1 })
push_tx_bundle_at bundle e s ea en h head short =
    rw (← ea, ← en) (push_tx_bundle_exact bundle e s h head (rw en short))

-- The bundle of an entry that is merged behind others.
abbrev pub merged_bundle : DwbEntry → TxBundle → TxBundle
merged_bundle d last = record {
  head_node = Pending.head_node d;
  list_len = Pending.list_len d;
  offset = last.offset + last.list_len;
}

-- Merging into an entry with a last bundle.
pub merge_dwb_entry_exact :
    (d : DwbEntry) (spent : Option ℕ) (e : StoredEntry) (s : Storage) (x : ℕ) (last : TxBundle)
    → IsStoredEntry e
    → Pending.amount d < 2 ^ 64
    → Pending.head_node d ≢ 0
    → 0 < history_len e
    → history_len e < u32_max
    → amount_u64 spent ≡ ok x
    → x ≤ saturating_add u64_max (balance e) (Pending.amount d)
    → get_tx_bundle_at e (history_len e - 1) s ≡ ok last
    → last.offset + last.list_len ≤ u32_max
    → let new_balance = saturating_add u64_max (balance e) (Pending.amount d) - x in
      (e' : StoredEntry) × (merge_dwb_entry d spent e s
        ≡ ok (e', with_bundle s (address e) (history_len e) (merged_bundle d last)))
      × (view e'
          ≡ record { address = address e; balance = new_balance; history_len = history_len e + 1 })
unfolding merge_dwb_entry safe_add_u64 get_tx_bundle_at get_tx_bundle_at_unchecked
merge_dwb_entry_exact d spent e s x last h small head some_history short sp enough at fits =
    let new_balance = saturating_add u64_max (balance e) (Pending.amount d) - x in
    let (al, bl, hl) = view_bounds e h in
    let e1 = set_balance new_balance e in
    let v1 = view-set_balance new_balance e h (ground arith) in
    let a1 : address e1 ≡ address e = ap (λ (v : View). v.address) v1 in
    let l1 : history_len e1 ≡ history_len e = ap (λ (v : View). v.history_len) v1 in
    let b1 : balance e1 ≡ new_balance = ap (λ (v : View). v.balance) v1 in
    let pos : (history_len e + 2 ^ 32 - 1) % 2 ^ 32 ≡ history_len e - 1 = omega arith in
    let sel1 : constant_time_if_else_u32 0 0 (history_len e - 1) ≡ ok (history_len e - 1) =
      constant_time_if_else_u32-flag 0 0 (history_len e - 1) in
    let next = last.offset + last.list_len in
    let sel2 : constant_time_if_else_u32 0 0 next ≡ ok next =
      constant_time_if_else_u32-flag 0 0 next in
    let (e', q, v) =
      push_tx_bundle_at (merged_bundle d last) e1 s a1 l1
        (set_balance-IsStoredEntry new_balance e h) head short in
    let stored : s.btbe_entry_history (address e) (history_len e - 1) ≡ some last = ground arith in
    (e', ground (arith, sp, a1, l1, b1, pos, sel1, sel2, stored, q), v ∙ cc (a1, b1))
