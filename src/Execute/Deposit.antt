-- ===== src/Execute/Deposit.antt =====
-- src/execute_deposit_redeem.rs
use snip20_reference_impl.Common.{
  ℕ, String, false, not, Option, none, some, List, [], ◌∷◌, leb, ◌==◌, if◌then◌else◌,
}
use snip20_reference_impl.Common.Bytes.{Bytes}
use snip20_reference_impl.Outcome.{
  Result, ok, err, or_err, unsupported_coin, no_funds, deposit_disabled, redeem_disabled,
  no_denom_given, unsupported_redeem_coin, redeem_exceeds_supply, redeem_exceeds_reserve,
  missing_value,
}
use snip20_reference_impl.Outcome.{◌>>=◌ as bind}
use snip20_reference_impl.Word.{u128_max, add_word, checked_sub}
use snip20_reference_impl.Platform.{Platform}
use snip20_reference_impl.TxHistory.{Coin}
use snip20_reference_impl.TxHistory.Store.{BlockInfo, store_deposit_action, store_redeem_action}
use snip20_reference_impl.State.{M, ◌>>=◌, ◌>>◌, pure, lift, load, modify, require}
use snip20_reference_impl.State.Minters.{contains}
use snip20_reference_impl.State.Supply.{safe_add}
use snip20_reference_impl.Dwb.Buffer.{add_recipient, settle_sender_or_owner_account}
use snip20_reference_impl.Execute.Types.{Env, MessageInfo, Response, CosmosMsg, done}

-- The loop over `info.funds`: the sum of the coins, all of which must be supported.
unfoldable pub sum_funds : List String → ℕ → List Coin → Result ℕ
sum_funds denoms amount [] = ok amount
sum_funds denoms amount (coin ∷ funds) =
    if contains denoms coin.denom
    then bind (add_word u128_max amount coin.amount) (λ sum. sum_funds denoms sum funds)
    else err unsupported_coin

-- `info.funds.first().unwrap().denom`
first_denom : List Coin → Result String
first_denom [] = err missing_value
first_denom (coin ∷ funds) = ok coin.denom

-- Which coin a redemption pays out.
unfoldable pub choose_denom : List String → Option String → Result String
choose_denom (only ∷ []) none = ok only
choose_denom supported none = err no_denom_given
choose_denom supported (some denom) =
    if contains supported denom then ok denom else err unsupported_redeem_coin

module _ (p : Platform) where
  unfoldable pub perform_deposit : Bytes → ℕ → String → BlockInfo → M (Unit {0})
  perform_deposit to amount denom block = do
    tx_id ← store_deposit_action amount denom block
    dwb ← load (λ s. s.dwb)
    dwb' ← add_recipient p dwb to tx_id amount
    modify (λ s. record s { dwb = some dwb' })

  unfoldable pub try_deposit : Env → MessageInfo → M Response
  unfolding sum_funds first_denom safe_add
  try_deposit env info = do
    constants ← load (λ s. s.config)
    amount ← lift (sum_funds constants.supported_denoms 0 info.funds)
    require (not (amount == 0)) no_funds
    require constants.deposit_is_enabled deposit_disabled
    total_supply ← load (λ s. s.total_supply)
    let added = safe_add total_supply amount
    modify (λ s. record s { total_supply = some added.0 })
    sender_address ← lift (p.addr_canonicalize info.sender)
    denom ← lift (first_denom info.funds)
    perform_deposit sender_address added.1 denom env.block
    pure done

  unfoldable pub try_redeem : Env → MessageInfo → ℕ → Option String → M Response
  unfolding choose_denom
  try_redeem env info amount denom = do
    constants ← load (λ s. s.config)
    require constants.redeem_is_enabled redeem_disabled
    withdraw_denom ← lift (choose_denom constants.supported_denoms denom)
    sender_address ← lift (p.addr_canonicalize info.sender)
    tx_id ← store_redeem_action amount constants.symbol env.block
    dwb ← load (λ s. s.dwb)
    settled ← settle_sender_or_owner_account p dwb sender_address tx_id amount false
    modify (λ s. record s { dwb = some settled.1 })
    total_supply ← load (λ s. s.total_supply)
    new_supply ← lift (or_err (checked_sub total_supply amount) redeem_exceeds_supply)
    modify (λ s. record s { total_supply = some new_supply })
    token_reserve ← lift (p.query_balance env.contract_address withdraw_denom)
    require (leb amount token_reserve) redeem_exceeds_reserve
    pure (record done {
      messages =
          CosmosMsg.bank_send info.sender (record { denom = withdraw_denom; amount = amount }) ∷ [];
    })
