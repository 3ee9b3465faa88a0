-- ===== src/Contract.antt =====
-- `execute` and `admin_execute` of src/contract.rs.
pub mod Frame
pub mod Stopped
pub mod Authority
pub mod Instantiate
use text.Mathlib.Text.{◌==◌ as str_eq}
use snip20_reference_impl.Common.{
  ℕ, String, Bool, true, false, Option, some, none, List, if◌then◌else◌,
}
use snip20_reference_impl.Outcome.{ok, not_admin, contract_stopped, not_an_admin_function}
use snip20_reference_impl.Platform.{Platform}
use snip20_reference_impl.State.{
  Storage, Config, M, ContractStatusLevel, ◌>>=◌, ◌>>◌, pure, raise, load, modify, require,
}
use snip20_reference_impl.Execute.Types.{Env, MessageInfo, Response, done}
use snip20_reference_impl.Execute.Deposit.{try_deposit, try_redeem}
use snip20_reference_impl.Execute.Allowance.{try_increase_allowance, try_decrease_allowance}
use snip20_reference_impl.Execute.Admin as Admin
use snip20_reference_impl.Execute.Keys as Keys
use snip20_reference_impl.Toolkit.{Toolkit}
use snip20_reference_impl.Execute.MintBurn.{
  MintAction, BurnFromAction, try_mint, try_batch_mint, try_burn, try_burn_from,
  try_batch_burn_from,
}
use snip20_reference_impl.Execute.Transfer.{
  TransferAction, TransferFromAction, try_transfer, try_batch_transfer, try_transfer_from,
  try_batch_transfer_from,
}
use snip20_reference_impl.Execute.Send.{
  SendAction, SendFromAction, try_send, try_batch_send, try_send_from, try_batch_send_from,
}

-- `ExecuteMsg` of src/msg.rs, without paddings, over the toolkit's type of intervals.
pub data ExecuteMsg (Interval : Type 0) : Type 0 where
  redeem : (amount : ℕ) (denom : Option String) → ExecuteMsg Interval
  deposit : ExecuteMsg Interval
  transfer : (recipient : String) (amount : ℕ) (memo : Option String) → ExecuteMsg Interval
  send :
      (recipient : String) (recipient_code_hash : Option String) (amount : ℕ)
      (msg memo : Option String)
      → ExecuteMsg Interval
  batch_transfer : (actions : List TransferAction) → ExecuteMsg Interval
  batch_send : (actions : List SendAction) → ExecuteMsg Interval
  burn : (amount : ℕ) (memo : Option String) → ExecuteMsg Interval
  register_receive : (code_hash : String) → ExecuteMsg Interval
  increase_allowance decrease_allowance :
      (spender : String) (amount : ℕ) (expiration : Option ℕ) → ExecuteMsg Interval
  transfer_from :
      (owner recipient : String) (amount : ℕ) (memo : Option String) → ExecuteMsg Interval
  send_from :
      (owner recipient : String) (recipient_code_hash : Option String) (amount : ℕ)
      (msg memo : Option String)
      → ExecuteMsg Interval
  batch_transfer_from : (actions : List TransferFromAction) → ExecuteMsg Interval
  batch_send_from : (actions : List SendFromAction) → ExecuteMsg Interval
  burn_from : (owner : String) (amount : ℕ) (memo : Option String) → ExecuteMsg Interval
  batch_burn_from : (actions : List BurnFromAction) → ExecuteMsg Interval
  mint : (recipient : String) (amount : ℕ) (memo : Option String) → ExecuteMsg Interval
  batch_mint : (actions : List MintAction) → ExecuteMsg Interval
  add_minters remove_minters set_minters : (minters : List String) → ExecuteMsg Interval
  change_admin : (address : String) → ExecuteMsg Interval
  set_contract_status : (level : ContractStatusLevel) → ExecuteMsg Interval
  add_supported_denoms remove_supported_denoms : (denoms : List String) → ExecuteMsg Interval
  create_viewing_key : (entropy : Option String) → ExecuteMsg Interval
  set_viewing_key : (key : String) → ExecuteMsg Interval
  revoke_permit : (permit_name : String) → ExecuteMsg Interval
  revoke_all_permits : (interval : Interval) → ExecuteMsg Interval
  delete_permit_revocation : (revocation_id : String) → ExecuteMsg Interval
  set_notification_status : (enabled : Bool) → ExecuteMsg Interval

-- `try_register_receive` of src/execute.rs
unfoldable pub try_register_receive : MessageInfo → String → M Response
try_register_receive info code_hash = do
  modify (λ s. record s {
    receiver_hash =
        λ account. if str_eq account info.sender then some code_hash else s.receiver_hash account;
  })
  pure done

-- A handler's answer that is data only.
abbrev pub answered : {A : Type 0} → M A → M Response
answered m = do m; pure done

abbrev require_admin : Config → MessageInfo → M (Unit {0})
require_admin config info = require (str_eq config.admin info.sender) not_admin

module _ (p : Platform) (toolkit : Toolkit) where
  -- The `match` of `admin_execute`.
  admin_handler : Config → ExecuteMsg toolkit.Interval → M Response
  admin_handler config (change_admin address) = answered (Admin.change_admin p config address)
  admin_handler config (set_contract_status level) = answered (Admin.set_contract_status level)
  admin_handler config (add_minters minters) = answered (Admin.admin_add_minters p config minters)
  admin_handler config (remove_minters minters) =
      answered (Admin.admin_remove_minters p config minters)
  admin_handler config (set_minters minters) = answered (Admin.admin_set_minters p config minters)
  admin_handler config (add_supported_denoms denoms) =
      answered (Admin.add_supported_denoms config denoms)
  admin_handler config (remove_supported_denoms denoms) =
      answered (Admin.remove_supported_denoms config denoms)
  admin_handler config (set_notification_status enabled) =
      answered (Admin.set_notification_status enabled)
  admin_handler config msg = raise not_an_admin_function

  unfoldable pub admin_execute : MessageInfo → ExecuteMsg toolkit.Interval → M Response
  unfolding admin_handler
  admin_execute info msg = do
    config ← load (λ s. s.config)
    require_admin config info
    admin_handler config msg

  -- The `match` of a contract that runs.
  unfoldable pub running : Env → MessageInfo → ExecuteMsg toolkit.Interval → M Response
  unfolding admin_execute try_register_receive
  running env info deposit = try_deposit p env info
  running env info (redeem amount denom) = try_redeem p env info amount denom
  running env info (transfer recipient amount memo) = try_transfer p env info recipient amount memo
  running env info (send recipient code_hash amount msg memo) =
      try_send p env info recipient code_hash amount memo msg
  running env info (batch_transfer actions) = try_batch_transfer p env info actions
  running env info (batch_send actions) = try_batch_send p env info actions
  running env info (burn amount memo) = try_burn p env info amount memo
  running env info (register_receive code_hash) = try_register_receive info code_hash
  running env info (increase_allowance spender amount expiration) =
      answered (try_increase_allowance p env info spender amount expiration)
  running env info (decrease_allowance spender amount expiration) =
      answered (try_decrease_allowance p env info spender amount expiration)
  running env info (transfer_from owner recipient amount memo) =
      try_transfer_from p env info owner recipient amount memo
  running env info (send_from owner recipient code_hash amount msg memo) =
      try_send_from p env info owner recipient code_hash amount memo msg
  running env info (batch_transfer_from actions) = try_batch_transfer_from p env info actions
  running env info (batch_send_from actions) = try_batch_send_from p env info actions
  running env info (burn_from owner amount memo) = try_burn_from p env info owner amount memo
  running env info (batch_burn_from actions) = try_batch_burn_from p env info actions
  running env info (mint recipient amount memo) = try_mint p env info recipient amount memo
  running env info (batch_mint actions) = try_batch_mint p env info actions
  running env info (create_viewing_key entropy) =
      answered (Keys.try_create_key toolkit env info entropy)
  running env info (set_viewing_key key) = answered (Keys.try_set_key toolkit info key)
  running env info (revoke_permit permit_name) =
      answered (Keys.revoke_permit toolkit info permit_name)
  running env info (revoke_all_permits interval) =
      answered (Keys.revoke_all_permits toolkit info interval)
  running env info (delete_permit_revocation revocation_id) =
      answered (Keys.delete_permit_revocation toolkit info revocation_id)
  running env info msg = admin_execute info msg

  -- The `match` of a contract that is stopped, with or without redeeming.
  unfoldable pub stopped : Bool → Env → MessageInfo → ExecuteMsg toolkit.Interval → M Response
  stopped redeems env info (set_contract_status level) = do
    config ← load (λ s. s.config)
    require_admin config info
    answered (Admin.set_contract_status level)
  stopped true env info (redeem amount denom) = try_redeem p env info amount denom
  stopped redeems env info msg = raise contract_stopped

  unfoldable pub execute : Env → MessageInfo → ExecuteMsg toolkit.Interval → M Response
  unfolding running stopped
  execute env info msg = do
    contract_status ← load (λ s. s.contract_status)
    elim contract_status [
      | ContractStatusLevel.stop_all ↦ stopped false env info msg
      | ContractStatusLevel.stop_all_but_redeems ↦ stopped true env info msg
      | ContractStatusLevel.normal_run ↦ running env info msg
    ]
