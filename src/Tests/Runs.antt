-- ===== src/Tests/Runs.antt =====
-- Whole messages that succeed on a small contract.
use snip20_reference_impl.Common.{
  inl, ℕ, arith, ◌+◌, String, ◌≡◌, refl, Bool, true, false, not, Option, none, some, List, [], ◌∷◌,
  ◌++◌, replicate, ◌==◌, if◌then◌else◌,
}
use snip20_reference_impl.Common.Bytes.{Bytes}
use snip20_reference_impl.Outcome.{ok, err}
use snip20_reference_impl.State.{Storage, Config, ContractStatusLevel, M}
use snip20_reference_impl.Btbe.Entry.{StoredEntry}
use snip20_reference_impl.Dwb.Entry.{DwbEntry}
use snip20_reference_impl.Execute.Types.{Env, MessageInfo, Response, done}
use snip20_reference_impl.Execute.Transfer.{try_transfer}
use snip20_reference_impl.Word.{u128_max, saturating_add}
use snip20_reference_impl.State.Frame.{rules}
use snip20_reference_impl.State.Minters.{load_minters, contains}
use snip20_reference_impl.TxHistory.{stored_mint, stored_burn}
use snip20_reference_impl.TxHistory.Store.{store_mint_action, store_burn_action}
use snip20_reference_impl.Execute.MintBurn.{
  try_mint, try_mint_impl, perform_mint, may_mint, try_burn, burn_supply,
}
use snip20_reference_impl.Execute.Authority.{Enabled, IsMinter, minting-IsMinter, Destroys-Enabled}
use snip20_reference_impl.Execute.Supply.Lowered.{Lowered}
use snip20_reference_impl.Execute.Supply.History.{
  History, nothing_yet, then_move, then_destroy, then_create, mint, transfer, burn, History-supply,
  Moves-rules, Destroys-Lowered, Creates-supply,
}
use snip20_reference_impl.Tests.Setup.{platform, alice, bob, fresh}

abbrev pub config : Config
config = record {
  name = "Secret";
  admin = "alice";
  symbol = "SSCRT";
  decimals = 6;
  total_supply_is_public = true;
  deposit_is_enabled = true;
  redeem_is_enabled = true;
  mint_is_enabled = true;
  burn_is_enabled = true;
  contract_address = "contract";
  supported_denoms = "uscrt" ∷ [];
  can_modify_denoms = true;
}

-- Nobody has an entry yet: the root is a leaf with an empty bucket.
abbrev nobody : StoredEntry
nobody =
    0x29
    ∷ 0xCF
    ∷ 0xC6
    ∷ 0x37
    ∷ 0x62
    ∷ 0x55
    ∷ 0xA7
    ∷ 0x84
    ∷ 0x51
    ∷ 0xEE
    ∷ 0xB4
    ∷ 0xB1
    ∷ 0x29
    ∷ 0xED
    ∷ 0x8E
    ∷ 0xAC
    ∷ 0xFF
    ∷ 0xA2
    ∷ 0xFE
    ∷ 0xEF
    ∷ replicate 12 0

-- Alice has 9 in the trie, the buffer has two free places.
abbrev alice_has_nine : StoredEntry
alice_has_nine = alice ++ (0 ∷ 0 ∷ 0 ∷ 0 ∷ 0 ∷ 0 ∷ 0 ∷ 9 ∷ 0 ∷ 0 ∷ 0 ∷ 1 ∷ [])

abbrev dummy : DwbEntry
dummy = replicate 35 0

abbrev pub stocked : Storage
stocked = record fresh {
  config = some config;
  total_supply = some 9;
  contract_status = some ContractStatusLevel.normal_run;
  minters = some ("alice" ∷ []);
  dwb = some (record { empty_space_counter = 2; entries = dummy ∷ dummy ∷ dummy ∷ [] });
  btbe_buckets = λ id.
      if id == 1
      then some (record { capacity = 0; entries = alice_has_nine ∷ nobody ∷ [] })
      else none;
  btbe_trie_nodes =
      λ id. if id == 1 then some (record { left = 0; right = 0; bucket = 1 }) else none;
  btbe_buckets_count = some 1;
  btbe_trie_nodes_count = some 1;
  btbe_entry_history = λ a i. some (record { head_node = 1; list_len = 1; offset = 0 });
  internal_secret_sensitive = some (1 ∷ []);
  notifications_enabled = some true;
  draws = 5 ∷ 6 ∷ 7 ∷ 8 ∷ [];
}

abbrev pub env : Env
env = record { block = record { seconds = 5; height = 1 }; contract_address = "contract" }

abbrev pub sender : MessageInfo
sender = record { sender = "alice"; funds = [] }

-- The answer and the storage after a message; one that fails leaves the storage.
unfoldable pub after : M Response → Storage → Response × Storage
after m s = elim (m s) [ ok r ↦ r | err e ↦ (done, s) ]

-- Alice mints 3 for bob, sends bob 2, and burns 1.
abbrev minting : M Response
minting = try_mint platform env sender "bob" 3 none

abbrev moving : M Response
moving = try_transfer platform env sender "bob" 2 none

abbrev burning : M Response
burning = try_burn platform env sender 1 none

abbrev minted : Storage
minted = (after minting stocked).1

abbrev moved : Storage
moved = (after moving minted).1

abbrev burnt : Storage
burnt = (after burning moved).1

runs_succeed :
    (minting stocked ≡ ok (after minting stocked))
    × (moving minted ≡ ok (after moving minted))
    × (burning moved ≡ ok (after burning moved))
unfolding after try_transfer platform try_mint try_mint_impl perform_mint may_mint load_minters
    contains store_mint_action stored_mint try_burn burn_supply store_burn_action stored_burn
    snip20_reference_impl.Execute.Transfer.perform_transfer
    snip20_reference_impl.Execute.Transfer.try_transfer_impl
    snip20_reference_impl.Execute.MintBurn.settle_other
    snip20_reference_impl.TxHistory.Store.store_transfer_action
    snip20_reference_impl.TxHistory.Store.append_new_stored_tx
    snip20_reference_impl.TxHistory.stored_transfer snip20_reference_impl.TxHistory.to_u8
    snip20_reference_impl.Dwb.Buffer.settle_sender_or_owner_account
    snip20_reference_impl.Dwb.Buffer.release_dwb_recipient
    snip20_reference_impl.Dwb.Buffer.recipient_match snip20_reference_impl.Dwb.Buffer.match_loop
    snip20_reference_impl.Dwb.Buffer.add_recipient snip20_reference_impl.Dwb.Buffer.choose_indexes
    snip20_reference_impl.Dwb.Buffer.draw_in_range snip20_reference_impl.Dwb.Buffer.repeat_tx_node
    snip20_reference_impl.Dwb.Random.draw_below snip20_reference_impl.Dwb.Random.random_in_range
    snip20_reference_impl.Dwb.Nodes.add_amount snip20_reference_impl.Dwb.Nodes.add_tx_node
    snip20_reference_impl.Dwb.Nodes.store_new_tx_node snip20_reference_impl.Dwb.Entry.new
    snip20_reference_impl.Dwb.Entry.recipient snip20_reference_impl.Dwb.Entry.amount
    snip20_reference_impl.Dwb.Entry.head_node snip20_reference_impl.Dwb.Entry.list_len
    snip20_reference_impl.Dwb.Entry.set_amount snip20_reference_impl.Dwb.Entry.set_head_node
    snip20_reference_impl.Dwb.Entry.set_list_len snip20_reference_impl.Dwb.Entry.set_recipient
    snip20_reference_impl.Btbe.Trie.stored_balance snip20_reference_impl.Btbe.Trie.stored_entry
    snip20_reference_impl.Btbe.Trie.locate_btbe_node snip20_reference_impl.Btbe.Trie.load_node
    snip20_reference_impl.Btbe.Trie.locate_loop snip20_reference_impl.Btbe.Trie.node_bucket
    snip20_reference_impl.Btbe.Bucket.constant_time_find_address
    snip20_reference_impl.Btbe.Bucket.find_loop snip20_reference_impl.Btbe.Bucket.new_bucket
    snip20_reference_impl.Btbe.Bucket.add_entry snip20_reference_impl.Btbe.Bundles.amount_u64
    snip20_reference_impl.Btbe.Bundles.get_tx_bundle_at_unchecked
    snip20_reference_impl.Btbe.Bundles.routes_to_right_node
    snip20_reference_impl.Btbe.Bundles.save_hash_cache snip20_reference_impl.Btbe.Entry.new
    snip20_reference_impl.Btbe.Entry.address snip20_reference_impl.Btbe.Entry.balance
    snip20_reference_impl.Btbe.Entry.history_len snip20_reference_impl.Btbe.Entry.set_balance
    snip20_reference_impl.Btbe.Entry.set_history_len
    snip20_reference_impl.Btbe.History.from_dwb_entry
    snip20_reference_impl.Btbe.History.merge_dwb_entry
    snip20_reference_impl.Btbe.History.push_tx_bundle
    snip20_reference_impl.Btbe.History.set_tx_bundle_at_unchecked
    snip20_reference_impl.Btbe.Settle.insert_loop snip20_reference_impl.Btbe.Settle.route_entries
    snip20_reference_impl.Btbe.Settle.save_bucket snip20_reference_impl.Btbe.Settle.save_node
    snip20_reference_impl.Btbe.Settle.set_and_save_bucket
    snip20_reference_impl.Btbe.Settle.settle_dwb_entry
    snip20_reference_impl.Btbe.Settle.settle_found snip20_reference_impl.Btbe.Settle.settle_new
    snip20_reference_impl.Btbe.Settle.split_node snip20_reference_impl.Common.Bytes.bytes_eq
    snip20_reference_impl.Common.Bytes.from_be_bytes snip20_reference_impl.Common.Bytes.to_be_bytes
    snip20_reference_impl.State.Supply.safe_add snip20_reference_impl.State.Supply.safe_add_u64
    snip20_reference_impl.Common.Bytes.copy_into
    snip20_reference_impl.ConstantTime.constant_time_if_else_u32
    snip20_reference_impl.ConstantTime.constant_time_is_not_zero
    snip20_reference_impl.ConstantTime.constant_time_if_else snip20_reference_impl.Tests.Setup.pad
runs_succeed = (refl, refl, refl)

three_messages : History platform stocked 3 1 burnt
three_messages =
    then_destroy
      (then_move
        (then_create nothing_yet
          (mint env sender "bob" none (after minting stocked).0 runs_succeed.0))
        (transfer env sender "bob" 2 none (after moving minted).0 runs_succeed.1))
      (burn env sender none (after burning moved).0 runs_succeed.2)

History-supply_example : (now : ℕ) × (burnt.total_supply ≡ some now) × (now + 1 ≡ 9 + 3)
History-supply_example = History-supply platform 9 refl (omega arith) three_messages

Moves-rules_example : rules moved ≡ rules minted
Moves-rules_example =
    Moves-rules platform (transfer env sender "bob" 2 none (after moving minted).0 runs_succeed.1)

Destroys-Lowered_example : Lowered 1 moved.total_supply burnt.total_supply
Destroys-Lowered_example =
    Destroys-Lowered platform (burn env sender none (after burning moved).0 runs_succeed.2)

Creates-supply_example : minted.total_supply ≡ some (saturating_add u128_max 9 3)
Creates-supply_example =
    Creates-supply platform 9 refl (omega arith)
      (mint env sender "bob" none (after minting stocked).0 runs_succeed.0)

minting-IsMinter_example : Enabled (λ c. c.mint_is_enabled) stocked × IsMinter "alice" stocked
minting-IsMinter_example =
    minting-IsMinter platform env sender stocked minted (after minting stocked).0 "bob" 3 none []
      (inl runs_succeed.0)

Destroys-Enabled_example : Enabled (λ c. c.burn_is_enabled) moved
Destroys-Enabled_example =
    Destroys-Enabled platform (burn env sender none (after burning moved).0 runs_succeed.2)
