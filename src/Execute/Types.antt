-- ===== src/Execute/Types.antt =====
-- What a handler is given and what it answers. The rendering of a notification, its encryption and
-- its attributes are left to the platform: a response names the notifications that are sent.
use snip20_reference_impl.Common.{ℕ, String, Bool, Option, List, []}
use snip20_reference_impl.TxHistory.{Coin}
use snip20_reference_impl.TxHistory.Store.{BlockInfo}

-- `Env` and `MessageInfo` of cosmwasm_std, as far as they are read.
pub record Env : Type 0 where
  pub block : BlockInfo
  pub contract_address : String

pub record MessageInfo : Type 0 where
  pub sender : String
  pub funds : List Coin

-- `RecvdNotification` and `SpentNotification` of src/notifications.rs
pub record RecvdNotification : Type 0 where
  pub amount : ℕ
  pub sender : Option String
  pub memo_len : ℕ
  pub sender_is_owner : Bool

pub record SpentNotification : Type 0 where
  pub amount : ℕ
  pub actions : ℕ
  pub recipient : Option String
  pub balance : ℕ
  pub memo_len : ℕ

-- The address that is notified, and the content.
pub data Notification : Type 0 where
  recvd : String → RecvdNotification → Notification
  spent : String → SpentNotification → Notification

-- `Snip20ReceiveMsg` of src/receiver.rs; the message's own data is a text here
pub record Snip20ReceiveMsg : Type 0 where
  pub sender : String
  pub from : String
  pub amount : ℕ
  pub memo : Option String
  pub msg : Option String

pub data CosmosMsg : Type 0 where
  -- to_address and the coin
  bank_send : String → Coin → CosmosMsg
  -- code_hash, contract_addr and the message
  wasm_execute : String → String → Snip20ReceiveMsg → CosmosMsg

pub record Response : Type 0 where
  pub messages : List CosmosMsg
  pub notifications : List Notification

abbrev pub done : Response
done = record { messages = []; notifications = [] }
