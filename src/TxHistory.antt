-- ===== src/TxHistory.antt =====
-- The transaction records of src/transaction_history.rs: their types, the stored form of an
-- action and its conversion back.
pub mod RoundTrip
pub mod Store
use snip20_reference_impl.Common.{ℕ, zero, suc, String, Option, none, some, ◌==◌, if◌then◌else◌}
use snip20_reference_impl.Common.Bytes.{Bytes}
use snip20_reference_impl.Outcome.{
  Result, ok, err, ◌>>=◌, or_err, unexpected_tx_code, missing_transfer_address,
  missing_mint_address, missing_burn_address,
}
use snip20_reference_impl.Platform.{Platform}

pub data TxAction : Type 0 where
  -- from, sender, recipient
  transfer : String → String → String → TxAction
  -- minter, recipient
  mint : String → String → TxAction
  -- burner, owner
  burn : String → String → TxAction
  deposit redeem : TxAction

pub record Coin : Type 0 where
  pub denom : String
  pub amount : ℕ

pub record Tx : Type 0 where
  pub id : ℕ
  pub action : TxAction
  pub coins : Coin
  pub memo : Option String
  pub block_time : ℕ
  pub block_height : ℕ

pub record StoredCoin : Type 0 where
  pub denom : String
  pub amount : ℕ

-- `impl From<Coin> for StoredCoin`, and back
unfoldable pub stored_coin_from : Coin → StoredCoin
stored_coin_from value = record { denom = value.denom; amount = value.amount }

unfoldable pub coin_from : StoredCoin → Coin
coin_from value = record { denom = value.denom; amount = value.amount }

pub data TxCode : Type 0 where
  transfer mint burn deposit redeem : TxCode

unfoldable pub to_u8 : TxCode → ℕ
to_u8 TxCode.transfer = 0
to_u8 TxCode.mint = 1
to_u8 TxCode.burn = 2
to_u8 TxCode.deposit = 3
to_u8 TxCode.redeem = 4

unfoldable pub from_u8 : ℕ → Result TxCode
from_u8 n =
    if n == 0
    then ok TxCode.transfer
    else if n == 1
    then ok TxCode.mint
    else if n == 2
    then ok TxCode.burn
    else if n == 3
    then ok TxCode.deposit
    else if n == 4
    then ok TxCode.redeem
    else err (unexpected_tx_code n)

pub record StoredTxAction : Type 0 where
  pub tx_type : ℕ
  pub address1 : Option Bytes
  pub address2 : Option Bytes
  pub address3 : Option Bytes

-- `StoredTxAction::transfer`, `mint`, `burn`, `deposit` and `redeem`
unfoldable pub stored_transfer : Bytes → Bytes → Bytes → StoredTxAction
unfolding to_u8
stored_transfer from sender recipient = record {
  tx_type = to_u8 TxCode.transfer;
  address1 = some from;
  address2 = some sender;
  address3 = some recipient;
}

unfoldable pub stored_mint : Bytes → Bytes → StoredTxAction
unfolding to_u8
stored_mint minter recipient = record {
  tx_type = to_u8 TxCode.mint;
  address1 = some minter;
  address2 = some recipient;
  address3 = none;
}

-- The owner is the first argument and the second field.
unfoldable pub stored_burn : Bytes → Bytes → StoredTxAction
unfolding to_u8
stored_burn owner burner = record {
  tx_type = to_u8 TxCode.burn;
  address1 = some burner;
  address2 = some owner;
  address3 = none;
}

unfoldable pub stored_deposit : StoredTxAction
unfolding to_u8
stored_deposit = record {
  tx_type = to_u8 TxCode.deposit;
  address1 = none;
  address2 = none;
  address3 = none;
}

unfoldable pub stored_redeem : StoredTxAction
unfolding to_u8
stored_redeem = record {
  tx_type = to_u8 TxCode.redeem;
  address1 = none;
  address2 = none;
  address3 = none;
}

pub record StoredTx : Type 0 where
  pub action : StoredTxAction
  pub coins : StoredCoin
  pub memo : Option String
  pub block_time : ℕ
  pub block_height : ℕ

module _ (p : Platform) where
  -- The branch of `into_tx_action` for a code.
  unfoldable pub action_of_code : TxCode → StoredTxAction → Result TxAction
  action_of_code TxCode.transfer self = do
    from ← or_err self.address1 missing_transfer_address
    sender ← or_err self.address2 missing_transfer_address
    recipient ← or_err self.address3 missing_transfer_address
    from_addr ← p.addr_humanize from
    sender_addr ← p.addr_humanize sender
    recipient_addr ← p.addr_humanize recipient
    ok (TxAction.transfer from_addr sender_addr recipient_addr)
  action_of_code TxCode.mint self = do
    minter ← or_err self.address1 missing_mint_address
    recipient ← or_err self.address2 missing_mint_address
    minter_addr ← p.addr_humanize minter
    recipient_addr ← p.addr_humanize recipient
    ok (TxAction.mint minter_addr recipient_addr)
  action_of_code TxCode.burn self = do
    burner ← or_err self.address1 missing_burn_address
    owner ← or_err self.address2 missing_burn_address
    burner_addr ← p.addr_humanize burner
    owner_addr ← p.addr_humanize owner
    ok (TxAction.burn burner_addr owner_addr)
  action_of_code TxCode.deposit self = ok TxAction.deposit
  action_of_code TxCode.redeem self = ok TxAction.redeem

  unfoldable pub into_tx_action : StoredTxAction → Result TxAction
  unfolding action_of_code from_u8
  into_tx_action self = do code ← from_u8 self.tx_type; action_of_code code self

  unfoldable pub into_humanized : StoredTx → ℕ → Result Tx
  unfolding into_tx_action coin_from
  into_humanized self id = do
    action ← into_tx_action self.action
    ok (record {
      id = id;
      action = action;
      coins = coin_from self.coins;
      memo = self.memo;
      block_time = self.block_time;
      block_height = self.block_height;
    })
