-- ===== src/TxHistory/Store.antt =====
-- The storage functions of src/transaction_history.rs: every action gets the next id.
use snip20_reference_impl.Common.{ℕ, String, Option, none, some}
use snip20_reference_impl.Common.Bytes.{Bytes}
use snip20_reference_impl.Outcome.{Result, ok}
use snip20_reference_impl.Word.{u64_max, add_word}
use snip20_reference_impl.TxHistory.{
  StoredTxAction, stored_transfer, stored_mint, stored_burn, stored_deposit, stored_redeem,
}
use snip20_reference_impl.State.{M, ◌>>=◌, ◌>>◌, pure, reads, modify, update}

-- `BlockInfo` of cosmwasm_std: the time in seconds and the height.
pub record BlockInfo : Type 0 where
  pub seconds : ℕ
  pub height : ℕ

abbrev next_id : Option ℕ → Result ℕ
next_id none = ok 1
next_id (some count) = add_word u64_max count 1

unfoldable pub append_new_stored_tx : StoredTxAction → ℕ → String → Option String → BlockInfo → M ℕ
append_new_stored_tx action amount denom memo block = do
  serial_id ← reads (λ s. next_id s.tx_count)
  modify (λ s. record s {
    transactions = update s.transactions serial_id (record {
      action = action;
      coins = record { denom = denom; amount = amount };
      memo = memo;
      block_time = block.seconds;
      block_height = block.height;
    });
  })
  modify (λ s. record s { tx_count = some serial_id })
  pure serial_id

unfoldable pub store_transfer_action :
    Bytes → Bytes → Bytes → ℕ → String → Option String → BlockInfo → M ℕ
unfolding append_new_stored_tx
store_transfer_action owner sender receiver amount denom memo block =
    append_new_stored_tx (stored_transfer owner sender receiver) amount denom memo block

unfoldable pub store_mint_action : Bytes → Bytes → ℕ → String → Option String → BlockInfo → M ℕ
unfolding append_new_stored_tx
store_mint_action minter recipient amount denom memo block =
    append_new_stored_tx (stored_mint minter recipient) amount denom memo block

unfoldable pub store_burn_action : Bytes → Bytes → ℕ → String → Option String → BlockInfo → M ℕ
unfolding append_new_stored_tx
store_burn_action owner burner amount denom memo block =
    append_new_stored_tx (stored_burn owner burner) amount denom memo block

unfoldable pub store_deposit_action : ℕ → String → BlockInfo → M ℕ
unfolding append_new_stored_tx
store_deposit_action amount denom block =
    append_new_stored_tx stored_deposit amount denom none block

unfoldable pub store_redeem_action : ℕ → String → BlockInfo → M ℕ
unfolding append_new_stored_tx
store_redeem_action amount denom block = append_new_stored_tx stored_redeem amount denom none block
