-- ===== src/Execute/Frame.antt =====
-- What the parts that the handlers share leave as it is: none touches the supply or the rules.
use snip20_reference_impl.Common.{ℕ, String, Bool, true, false, Option, none}
use snip20_reference_impl.Common.Bytes.{Bytes}
use snip20_reference_impl.Platform.{Platform}
use snip20_reference_impl.TxHistory.{StoredTxAction}
use snip20_reference_impl.TxHistory.Store.{
  BlockInfo, append_new_stored_tx, store_transfer_action, store_mint_action, store_burn_action,
  store_deposit_action, store_redeem_action,
}
use snip20_reference_impl.State.{Config}
use snip20_reference_impl.State.Allowances.{save_allowance, with_allowance}
use snip20_reference_impl.State.Frame.{Keeps, frame, rules, pure-Keeps}
use snip20_reference_impl.Dwb.Types.{DelayedWriteBuffer}
use snip20_reference_impl.Dwb.Frame.{settle_sender_or_owner_account-Keeps, add_recipient-Keeps}
use snip20_reference_impl.Execute.Types.{Env}
use snip20_reference_impl.Execute.Allowance.{use_allowance}
use snip20_reference_impl.Execute.Deposit.{perform_deposit}
use snip20_reference_impl.Execute.MintBurn.{settle_other, perform_mint, try_mint_impl, burn_for}
use snip20_reference_impl.Execute.Transfer.{perform_transfer}

append_new_stored_tx-Keeps :
    (action : StoredTxAction) (amount : ℕ) (denom : String) (memo : Option String)
    (block : BlockInfo)
    → Keeps rules (append_new_stored_tx action amount denom memo block)
unfolding append_new_stored_tx
append_new_stored_tx-Keeps action amount denom memo block = search frame depth 10

store_transfer_action-Keeps :
    (owner sender receiver : Bytes) (amount : ℕ) (denom : String) (memo : Option String)
    (block : BlockInfo)
    → Keeps rules (store_transfer_action owner sender receiver amount denom memo block)
unfolding store_transfer_action
store_transfer_action-Keeps owner sender receiver amount denom memo block =
    append_new_stored_tx-Keeps _ amount denom memo block

store_mint_action-Keeps :
    (minter recipient : Bytes) (amount : ℕ) (denom : String) (memo : Option String)
    (block : BlockInfo)
    → Keeps rules (store_mint_action minter recipient amount denom memo block)
unfolding store_mint_action
store_mint_action-Keeps minter recipient amount denom memo block =
    append_new_stored_tx-Keeps _ amount denom memo block

pub store_burn_action-Keeps :
    (owner burner : Bytes) (amount : ℕ) (denom : String) (memo : Option String) (block : BlockInfo)
    → Keeps rules (store_burn_action owner burner amount denom memo block)
unfolding store_burn_action
store_burn_action-Keeps owner burner amount denom memo block =
    append_new_stored_tx-Keeps _ amount denom memo block

store_deposit_action-Keeps :
    (amount : ℕ) (denom : String) (block : BlockInfo)
    → Keeps rules (store_deposit_action amount denom block)
unfolding store_deposit_action
store_deposit_action-Keeps amount denom block = append_new_stored_tx-Keeps _ amount denom none block

pub store_redeem_action-Keeps :
    (amount : ℕ) (denom : String) (block : BlockInfo)
    → Keeps rules (store_redeem_action amount denom block)
unfolding store_redeem_action
store_redeem_action-Keeps amount denom block = append_new_stored_tx-Keeps _ amount denom none block

pub use_allowance-Keeps :
    (env : Env) (owner spender : String) (amount : ℕ)
    → Keeps rules (use_allowance env owner spender amount)
unfolding use_allowance save_allowance with_allowance
use_allowance-Keeps env owner spender amount = search frame depth 10

module _ (p : Platform) where
  pub perform_deposit-Keeps :
      (to : Bytes) (amount : ℕ) (denom : String) (block : BlockInfo)
      → Keeps rules (perform_deposit p to amount denom block)
  unfolding perform_deposit
  perform_deposit-Keeps to amount denom block =
      search (frame, store_deposit_action-Keeps, add_recipient-Keeps) depth 10

  settle_other-Keeps :
      (other : Bool) (dwb : DelayedWriteBuffer) (account : Bytes) (tx_id : ℕ)
      → Keeps rules (settle_other p other dwb account tx_id)
  unfolding settle_other
  settle_other-Keeps false dwb account tx_id = pure-Keeps dwb
  settle_other-Keeps true dwb account tx_id = search (frame, settle_sender_or_owner_account-Keeps)

  perform_mint-Keeps :
      (minter to : Bytes) (amount : ℕ) (denom : String) (memo : Option String) (block : BlockInfo)
      → Keeps rules (perform_mint p minter to amount denom memo block)
  unfolding perform_mint
  perform_mint-Keeps minter to amount denom memo block =
      search (frame, store_mint_action-Keeps, settle_other-Keeps, add_recipient-Keeps) depth 12

  pub try_mint_impl-Keeps :
      (minter recipient : String) (amount : ℕ) (denom : String) (memo : Option String)
      (block : BlockInfo)
      → Keeps rules (try_mint_impl p minter recipient amount denom memo block)
  unfolding try_mint_impl
  try_mint_impl-Keeps minter recipient amount denom memo block = search (frame, perform_mint-Keeps)

  pub burn_for-Keeps :
      (env : Env) (constants : Config) (raw_owner raw_burner : Bytes) (amount : ℕ)
      (memo : Option String)
      → Keeps rules (burn_for p env constants raw_owner raw_burner amount memo)
  unfolding burn_for
  burn_for-Keeps env constants raw_owner raw_burner amount memo =
      search
        (frame, store_burn_action-Keeps, settle_sender_or_owner_account-Keeps, settle_other-Keeps)
        depth 12

  pub perform_transfer-Keeps :
      (from to sender : Bytes) (amount : ℕ) (denom : String) (memo : Option String)
      (block : BlockInfo) (is_from_action : Bool)
      → Keeps rules (perform_transfer p from to sender amount denom memo block is_from_action)
  unfolding perform_transfer
  perform_transfer-Keeps from to sender amount denom memo block is_from_action =
      search
        (
          frame, store_transfer_action-Keeps, settle_sender_or_owner_account-Keeps,
          settle_other-Keeps, add_recipient-Keeps,
        )
        depth 14
