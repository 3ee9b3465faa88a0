-- ===== src/Query.antt =====
-- The queries of src/query.rs on the token and on single accounts. An answer is the value that the
-- source serializes.
pub mod History
pub mod Balance
pub mod Pages
use snip20_reference_impl.Common.{
  ℕ, ◌+◌, ◌-◌, ◌^◌, String, Bool, true, false, Option, none, some, List, leb, ltb, ◌==◌,
  if◌then◌else◌,
}
use snip20_reference_impl.Outcome.{
  Result, ok, err, ◌>>=◌, or_err, index, overflow, not_found, minters_not_loaded,
}
use snip20_reference_impl.Word.{u128_max, saturating_add}
use snip20_reference_impl.Platform.{Platform}
use snip20_reference_impl.State.{Storage, ContractStatusLevel, Config}
use snip20_reference_impl.State.Allowances.{load_allowance}
use snip20_reference_impl.TxHistory.{Tx}
use snip20_reference_impl.Dwb.Entry.{amount}
use snip20_reference_impl.Dwb.Buffer.{recipient_match}
use snip20_reference_impl.Btbe.Trie.{stored_balance}

-- `AllowanceGivenResult` and `AllowanceReceivedResult` of src/msg.rs
pub record AllowanceGivenResult : Type 0 where
  pub spender : String
  pub allowance : ℕ
  pub expiration : Option ℕ

pub record AllowanceReceivedResult : Type 0 where
  pub owner : String
  pub allowance : ℕ
  pub expiration : Option ℕ

-- The answers of `QueryAnswer` of src/msg.rs up to those of the toolkit's types, on the channels and the
-- revocations of permits.
pub data QueryAnswer : Type 0 where
  exchange_rate : (rate : ℕ) (denom : String) → QueryAnswer
  token_info : (name symbol : String) (decimals : ℕ) (total_supply : Option ℕ) → QueryAnswer
  token_config :
      (public_total_supply deposit_enabled redeem_enabled mint_enabled burn_enabled : Bool)
      (supported_denoms : List String)
      → QueryAnswer
  contract_status : (status : ContractStatusLevel) → QueryAnswer
  transaction_history : (txs : List Tx) (total : Option ℕ) → QueryAnswer
  balance : (amount : ℕ) → QueryAnswer
  minters : (minters : List String) → QueryAnswer
  viewing_key_error : (msg : String) → QueryAnswer
  allowances_given :
      (owner : String) (allowances : List AllowanceGivenResult) (count : ℕ) → QueryAnswer
  allowances_received :
      (spender : String) (allowances : List AllowanceReceivedResult) (count : ℕ) → QueryAnswer
  allowance : (owner spender : String) (allowance : ℕ) (expiration : Option ℕ) → QueryAnswer

-- `10u128.pow(n)`
abbrev pow_ten : ℕ → Result ℕ
pow_ten n = if leb (10 ^ n) u128_max then ok (10 ^ n) else err overflow

unfoldable pub query_exchange_rate : Storage → Result QueryAnswer
query_exchange_rate s = do
  constants ← or_err s.config not_found
  elim (if constants.deposit_is_enabled then true else constants.redeem_is_enabled) [
    | false ↦ ok (exchange_rate 0 "")
    | true ↦
        if leb 6 constants.decimals
        then (do rate ← pow_ten (constants.decimals - 6); ok (exchange_rate rate "SCRT"))
        else (do rate ← pow_ten (6 - constants.decimals); ok (exchange_rate rate constants.symbol))
  ]

-- The supply, if it is public.
abbrev shown_supply : Config → Storage → Result (Option ℕ)
shown_supply constants s =
    if constants.total_supply_is_public
    then (do supply ← or_err s.total_supply not_found; ok (some supply))
    else ok none

unfoldable pub query_token_info : Storage → Result QueryAnswer
query_token_info s = do
  constants ← or_err s.config not_found
  total_supply ← shown_supply constants s
  ok (token_info constants.name constants.symbol constants.decimals total_supply)

unfoldable pub query_token_config : Storage → Result QueryAnswer
query_token_config s = do
  constants ← or_err s.config not_found
  ok (
      token_config constants.total_supply_is_public constants.deposit_is_enabled
        constants.redeem_is_enabled constants.mint_is_enabled constants.burn_is_enabled
        constants.supported_denoms)

unfoldable pub query_contract_status : Storage → Result QueryAnswer
query_contract_status s = do
  status ← or_err s.contract_status not_found
  ok (contract_status status)

module _ (p : Platform) where
  unfoldable pub query_balance : String → Storage → Result QueryAnswer
  query_balance account s = do
    account_raw ← p.addr_canonicalize account
    stored ← stored_balance p account_raw s
    dwb ← or_err s.dwb not_found
    let dwb_index = recipient_match p dwb.entries account_raw
    elim (ltb 0 dwb_index) [
      | false ↦ ok (balance stored)
      | true ↦ (do
        entry ← index dwb.entries dwb_index
        ok (balance (saturating_add u128_max stored (amount entry))))
    ]

unfoldable pub query_minters : Storage → Result QueryAnswer
query_minters s = do stored ← or_err s.minters minters_not_loaded; ok (minters stored)

unfoldable pub query_allowance : String → String → Storage → Result QueryAnswer
query_allowance owner spender s =
    let stored = load_allowance s owner spender in
    ok (allowance owner spender stored.amount stored.expiration)
