-- ===== src/Dwb/Buffer.antt =====
-- `DelayedWriteBuffer` of src/dwb.rs.
pub mod Match
pub mod Full
pub mod Indexes
use snip20_reference_impl.Common.{
  ℕ, ◌+◌, ◌-◌, ◌*◌, ◌%◌, ◌^◌, bit_or, Bool, true, false, Option, none, some, List, [], ◌∷◌,
  replicate, ◌==◌, if◌then◌else◌,
}
use snip20_reference_impl.Common.Bytes.{Bytes}
use snip20_reference_impl.Outcome.{Result, ok, err, or_err, index, set_index, insufficient_funds}
use snip20_reference_impl.Outcome.{◌>>=◌ as bind}
use snip20_reference_impl.Word.{u16_max, sub_word, checked_sub, bool_word}
use snip20_reference_impl.ConstantTime.{constant_time_is_not_zero, constant_time_if_else}
use snip20_reference_impl.Platform.{Platform}
use snip20_reference_impl.State.{Storage, M, ◌>>=◌, ◌>>◌, pure, lift, reads, modify}
use snip20_reference_impl.State.Supply.{safe_add}
use snip20_reference_impl.Btbe.Trie.{stored_balance}
use snip20_reference_impl.Btbe.Settle.{settle_dwb_entry}
use snip20_reference_impl.Dwb.Types.{DelayedWriteBuffer}
use snip20_reference_impl.Dwb.Random.{random_in_range}
use snip20_reference_impl.Dwb.Nodes.{add_tx_node, add_amount}
use snip20_reference_impl.Dwb.Entry.{
  DwbEntry, new, recipient, set_recipient, amount, list_len, zero_addr,
}

-- DWB_MAX_TX_EVENTS
abbrev pub dwb_max_tx_events : ℕ
dwb_max_tx_events = u16_max

-- `random_in_range` on the generator's outputs in the state.
unfoldable pub draw_in_range : ℕ → ℕ → M ℕ
draw_in_range a b s =
    bind (random_in_range a b s.draws) (λ drawn. ok (drawn.0, record s { draws = drawn.1 }))

module _ (p : Platform) where
  -- DWB_LEN: the entries and the dummy
  abbrev pub dwb_len : ℕ
  dwb_len = p.dwb_capacity + 1

  unfoldable pub new_buffer : Result DelayedWriteBuffer
  new_buffer = bind (new zero_addr) (λ entry.
      ok (record { empty_space_counter = dwb_len - 1; entries = replicate dwb_len entry }))

  -- The loop of `recipient_match` from position `idx` on.
  unfoldable pub match_loop : Bytes → ℕ → ℕ → List DwbEntry → ℕ
  match_loop address idx matched_index [] = matched_index
  match_loop address idx matched_index (e ∷ es) =
      let equals = bool_word (p.constant_time_eq address (recipient e)) in
      match_loop address (idx + 1) (bit_or matched_index (idx * equals)) es

  -- The dummy entry is skipped.
  unfoldable pub recipient_match : List DwbEntry → Bytes → ℕ
  recipient_match [] address = 0
  recipient_match (dummy ∷ es) address = match_loop address 1 0 es

  -- The balance with the buffered amount, the released entry, and the buffer without it.
  unfoldable pub release_dwb_recipient :
      DelayedWriteBuffer → Bytes → M (ℕ × DwbEntry × DelayedWriteBuffer)
  unfolding safe_add
  release_dwb_recipient b address = do
    balance ← reads (stored_balance p address)
    let matched_entry_idx = recipient_match b.entries address
    entry ← lift (index b.entries matched_entry_idx)
    replacement_entry ← lift (new (recipient entry))
    let total = (safe_add balance (amount entry)).0
    entries ← lift (set_index b.entries matched_entry_idx replacement_entry)
    pure (total, entry, record b { entries = entries })

  unfoldable pub repeat_tx_node : Bool → ℕ → DwbEntry → M DwbEntry
  repeat_tx_node true tx_id e = do added ← add_tx_node tx_id e; pure added.1
  repeat_tx_node false tx_id e = pure e

  -- The balance after the spending, and the buffer.
  unfoldable pub settle_sender_or_owner_account :
      DelayedWriteBuffer → Bytes → ℕ → ℕ → Bool → M (ℕ × DelayedWriteBuffer)
  unfolding repeat_tx_node
  settle_sender_or_owner_account b address tx_id amount_spent is_from_self = do
    released ← release_dwb_recipient b address
    let balance = released.0
    checked_balance ←
        lift (or_err (checked_sub balance amount_spent) (insufficient_funds balance amount_spent))
    added ← add_tx_node tx_id released.1
    dwb_entry ← repeat_tx_node is_from_self tx_id added.1
    named ← lift (set_recipient address dwb_entry)
    settle_dwb_entry p named (some amount_spent)
    pure (checked_balance, released.2)

  -- The positions that `add_recipient` computes: which entry to settle, and where to write.
  unfoldable pub choose_indexes : DelayedWriteBuffer → ℕ → M (ℕ × ℕ × ℕ)
  choose_indexes b recipient_index = do
    if_recipient_in_buffer ← lift (constant_time_is_not_zero (recipient_index % 2 ^ 32))
    if_undersaturated ← lift (constant_time_is_not_zero b.empty_space_counter)
    next_empty_index ← lift (sub_word dwb_len b.empty_space_counter)
    random_index ← draw_in_range 1 dwb_len
    settle_in_buffer ← lift (constant_time_if_else if_undersaturated 0 random_index)
    presumptive_settle_index ←
        lift (constant_time_if_else if_recipient_in_buffer 0 settle_in_buffer)
    current ← lift (index b.entries recipient_index)
    room ← lift (sub_word dwb_max_tx_events (list_len current))
    if_list_can_grow ← lift (constant_time_is_not_zero room)
    actual_settle_index ←
        lift (constant_time_if_else if_list_can_grow presumptive_settle_index recipient_index)
    write_new ← lift (constant_time_if_else if_undersaturated next_empty_index actual_settle_index)
    write_index ← lift (constant_time_if_else if_recipient_in_buffer recipient_index write_new)
    taken_if_new ← lift (constant_time_if_else if_recipient_in_buffer 0 1)
    taken ← lift (constant_time_if_else if_undersaturated taken_if_new 0)
    pure (actual_settle_index, write_index, taken)

  unfoldable pub add_recipient : DelayedWriteBuffer → Bytes → ℕ → ℕ → M DelayedWriteBuffer
  unfolding choose_indexes
  add_recipient b recipient_addr tx_id amount_added = do
    let recipient_index = recipient_match b.entries recipient_addr
    existing ← lift (index b.entries recipient_index)
    named ← lift (set_recipient recipient_addr existing)
    added ← add_tx_node tx_id named
    funded ← lift (add_amount amount_added added.1)
    indexes ← choose_indexes b recipient_index
    dwb_entry ← lift (index b.entries indexes.0)
    settle_dwb_entry p dwb_entry none
    entries ← lift (set_index b.entries indexes.1 funded.1)
    empty_space_counter ← lift (sub_word b.empty_space_counter indexes.2)
    pure (record { empty_space_counter = empty_space_counter; entries = entries })
