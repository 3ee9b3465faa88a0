-- ===== src/Tests/Start.antt =====
-- A small contract is instantiated with a balance.
use snip20_reference_impl.Common.{ℕ, String, ◌≡◌, refl, true, none, some, List, [], ◌∷◌, replicate}
use snip20_reference_impl.Common.Bytes.{Bytes}
use snip20_reference_impl.Outcome.{ok}
use snip20_reference_impl.State.{Storage}
use snip20_reference_impl.Execute.Types.{done}
use snip20_reference_impl.Contract.Instantiate.{InstantiateMsg, default_config, instantiate}
use snip20_reference_impl.Contract.Instantiate.Required.{IsStarted}
use snip20_reference_impl.Contract.Instantiate.Started.{instantiate-IsStarted}
use snip20_reference_impl.Tests.Setup.{toolkit, platform, fresh}
use snip20_reference_impl.Tests.Runs.{env, sender, after}

abbrev first_msg : InstantiateMsg
first_msg = record {
  name = "Secret";
  admin = none;
  symbol = "SCRT";
  decimals = 6;
  initial_balances = some (record { address = "bob"; amount = 5 } ∷ []);
  prng_seed = 1 ∷ [];
  config = some (record default_config { enable_mint = some true });
  supported_denoms = none;
}

abbrev started : Storage
started = (after (instantiate platform toolkit (some (1 ∷ [])) env sender first_msg) fresh).1

starts :
    instantiate platform toolkit (some (1 ∷ [])) env sender first_msg fresh ≡ ok (done, started)
unfolding after platform snip20_reference_impl.Execute.MintBurn.perform_mint
    snip20_reference_impl.TxHistory.Store.store_mint_action
    snip20_reference_impl.TxHistory.stored_mint
    snip20_reference_impl.Execute.Transfer.perform_transfer
    snip20_reference_impl.Execute.Transfer.try_transfer_impl
    snip20_reference_impl.Execute.MintBurn.settle_other
    snip20_reference_impl.TxHistory.Store.store_transfer_action
    snip20_reference_impl.TxHistory.Store.append_new_stored_tx
    snip20_reference_impl.TxHistory.stored_transfer snip20_reference_impl.TxHistory.to_u8
    snip20_reference_impl.Dwb.Buffer.settle_sender_or_owner_account
    snip20_reference_impl.Dwb.Buffer.release_dwb_recipient
    snip20_reference_impl.Dwb.Buffer.recipient_match snip20_reference_impl.Dwb.Buffer.match_loop
    snip20_reference_impl.Dwb.Buffer.add_recipient snip20_reference_impl.Dwb.Buffer.choose_indexes
    snip20_reference_impl.Dwb.Buffer.draw_in_range snip20_reference_impl.Dwb.Buffer.repeat_tx_node
    snip20_reference_impl.Dwb.Random.draw_below snip20_reference_impl.Dwb.Random.random_in_range
    snip20_reference_impl.Dwb.Nodes.add_amount snip20_reference_impl.Dwb.Nodes.add_tx_node
    snip20_reference_impl.Dwb.Nodes.store_new_tx_node snip20_reference_impl.Dwb.Entry.new
    snip20_reference_impl.Dwb.Entry.recipient snip20_reference_impl.Dwb.Entry.amount
    snip20_reference_impl.Dwb.Entry.head_node snip20_reference_impl.Dwb.Entry.list_len
    snip20_reference_impl.Dwb.Entry.set_amount snip20_reference_impl.Dwb.Entry.set_head_node
    snip20_reference_impl.Dwb.Entry.set_list_len snip20_reference_impl.Dwb.Entry.set_recipient
    snip20_reference_impl.Btbe.Trie.stored_balance snip20_reference_impl.Btbe.Trie.stored_entry
    snip20_reference_impl.Btbe.Trie.locate_btbe_node snip20_reference_impl.Btbe.Trie.load_node
    snip20_reference_impl.Btbe.Trie.locate_loop snip20_reference_impl.Btbe.Trie.node_bucket
    snip20_reference_impl.Btbe.Bucket.constant_time_find_address
    snip20_reference_impl.Btbe.Bucket.find_loop snip20_reference_impl.Btbe.Bucket.new_bucket
    snip20_reference_impl.Btbe.Bucket.add_entry snip20_reference_impl.Btbe.Bundles.amount_u64
    snip20_reference_impl.Btbe.Bundles.get_tx_bundle_at_unchecked
    snip20_reference_impl.Btbe.Bundles.routes_to_right_node
    snip20_reference_impl.Btbe.Bundles.save_hash_cache snip20_reference_impl.Btbe.Entry.new
    snip20_reference_impl.Btbe.Entry.address snip20_reference_impl.Btbe.Entry.balance
    snip20_reference_impl.Btbe.Entry.history_len snip20_reference_impl.Btbe.Entry.set_balance
    snip20_reference_impl.Btbe.Entry.set_history_len
    snip20_reference_impl.Btbe.History.from_dwb_entry
    snip20_reference_impl.Btbe.History.merge_dwb_entry
    snip20_reference_impl.Btbe.History.push_tx_bundle
    snip20_reference_impl.Btbe.History.set_tx_bundle_at_unchecked
    snip20_reference_impl.Btbe.Settle.insert_loop snip20_reference_impl.Btbe.Settle.route_entries
    snip20_reference_impl.Btbe.Settle.save_bucket snip20_reference_impl.Btbe.Settle.save_node
    snip20_reference_impl.Btbe.Settle.set_and_save_bucket
    snip20_reference_impl.Btbe.Settle.settle_dwb_entry
    snip20_reference_impl.Btbe.Settle.settle_found snip20_reference_impl.Btbe.Settle.settle_new
    snip20_reference_impl.Btbe.Settle.split_node snip20_reference_impl.Common.Bytes.bytes_eq
    snip20_reference_impl.Common.Bytes.from_be_bytes snip20_reference_impl.Common.Bytes.to_be_bytes
    snip20_reference_impl.State.Supply.safe_add snip20_reference_impl.State.Supply.safe_add_u64
    snip20_reference_impl.Common.Bytes.copy_into
    snip20_reference_impl.ConstantTime.constant_time_if_else_u32
    snip20_reference_impl.ConstantTime.constant_time_is_not_zero
    snip20_reference_impl.ConstantTime.constant_time_if_else snip20_reference_impl.Tests.Setup.pad
    snip20_reference_impl.Contract.Instantiate.instantiate
    snip20_reference_impl.Contract.Instantiate.create_secrets
    snip20_reference_impl.Contract.Instantiate.initial_mints
    snip20_reference_impl.Contract.Instantiate.save_settings
    snip20_reference_impl.Contract.Instantiate.insert_channels
    snip20_reference_impl.State.Minters.save_minters
    snip20_reference_impl.Btbe.Settle.initialize_btbe snip20_reference_impl.Btbe.Settle.new_leaf
    snip20_reference_impl.Dwb.Buffer.new_buffer
starts = refl

instantiate-IsStarted_example : IsStarted platform toolkit env sender first_msg started
instantiate-IsStarted_example =
    instantiate-IsStarted platform toolkit (some (1 ∷ [])) env sender first_msg fresh done started
      starts
