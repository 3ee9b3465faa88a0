-- ===== src/Tests/Dispatch.antt =====
-- Messages through the dispatch, and a send.
use text.Mathlib.Text.{◌==◌ as str_eq}
use snip20_reference_impl.Common.{ℕ, ◌≡◌, ◌≢◌, refl, if◌then◌else◌, some, none, [], ◌⊎◌}
use snip20_reference_impl.Outcome.{ok, err}
use snip20_reference_impl.State.{Storage, ContractStatusLevel}
use snip20_reference_impl.Execute.Types.{MessageInfo, done}
use snip20_reference_impl.Execute.Transfer.{try_transfer}
use snip20_reference_impl.Execute.Send.{try_send, with_messages}
use snip20_reference_impl.Execute.Send.Callback.{messages_to, hash_for, try_send_exact}
use snip20_reference_impl.Contract.{
  set_contract_status, register_receive, execute, running, stopped, try_register_receive,
}
use snip20_reference_impl.Contract.Stopped.{IsAdminSwitch, IsRedemption, execute_while_stopped}
use snip20_reference_impl.Contract.Frame.{settings}
use snip20_reference_impl.Contract.Authority.{execute-settings}
use snip20_reference_impl.Tests.Setup.{platform, toolkit}
use snip20_reference_impl.Tests.Runs.{stocked, env, sender, config}

bob_is_valid : platform.addr_validate "bob" ≡ ok "bob"
unfolding platform
bob_is_valid = refl

try_send_exact_example :
    try_send platform env sender "bob" (some "hash") 2 none none stocked
    ≡ elim (try_transfer platform env sender "bob" 2 none stocked) [
      | ok (r, s') ↦ ok (
        with_messages
            (messages_to "bob"
              (hash_for s' "bob" (some "hash"))
              none
              sender.sender
              sender.sender
              2
              none)
            r,
        s',
      )
      | err x ↦ err x
    ]
try_send_exact_example =
    try_send_exact platform env sender "bob" "bob" 2 none none bob_is_valid (some "hash") stocked

-- A contract that is stopped, and the admin's message that starts it again.
abbrev stopped_contract : Storage
stopped_contract = record stocked { contract_status = some ContractStatusLevel.stop_all }

starts :
    execute platform toolkit env sender
      (set_contract_status ContractStatusLevel.normal_run)
      stopped_contract
    ≡ ok (done, stocked)
unfolding execute stopped snip20_reference_impl.Execute.Admin.set_contract_status
starts = refl

execute_while_stopped_example :
    (stopped_contract.contract_status ≡ some ContractStatusLevel.stop_all
      → IsAdminSwitch {I = ℕ} sender
          (set_contract_status ContractStatusLevel.normal_run)
          stopped_contract
          stocked)
    × (stopped_contract.contract_status ≡ some ContractStatusLevel.stop_all_but_redeems
        → IsAdminSwitch {I = ℕ} sender
            (set_contract_status ContractStatusLevel.normal_run)
            stopped_contract
            stocked
          ⊎ IsRedemption {I = ℕ} platform env sender
              (set_contract_status ContractStatusLevel.normal_run)
              stopped_contract
              done
              stocked)
execute_while_stopped_example =
    execute_while_stopped platform toolkit env sender
      (set_contract_status ContractStatusLevel.normal_run) stopped_contract done stocked starts

abbrev other_sender : MessageInfo
other_sender = record { sender = "bob"; funds = [] }

alice_is_not_bob : config.admin ≢ other_sender.sender
alice_is_not_bob = λ q. absurd cc

abbrev registered : Storage
registered = record stocked {
  receiver_hash =
      λ account. if str_eq account "bob" then some "hash" else stocked.receiver_hash account;
}

registers :
    execute platform toolkit env other_sender (register_receive "hash") stocked
    ≡ ok (done, registered)
unfolding execute running try_register_receive
registers = refl

execute-settings_example : settings registered ≡ settings stocked
execute-settings_example =
    execute-settings platform toolkit env other_sender stocked done registered config refl
      alice_is_not_bob (register_receive "hash") registers
