-- ===== src/Contract/Authority.antt =====
-- Whose messages change the settings of the contract.
use text.Mathlib.Text.{◌==◌ as str_eq}
use text.Mathlib.TextEquality.{eq_iff}
use snip20_reference_impl.Common.{
  ◌≡◌, ◌≢◌, refl, sym, ap, ◌∙◌, some, none, some-injective, inl, inr, arith, Option-cases,
  Bool-cases,
}
use snip20_reference_impl.Outcome.{ok, err, not_found}
use snip20_reference_impl.Contract.Stopped.{IsAdminSwitch, execute_while_stopped}
use snip20_reference_impl.Platform.{Platform}
use snip20_reference_impl.State.{Storage, Config, ContractStatusLevel}
use snip20_reference_impl.Execute.Types.{Env, MessageInfo, Response}
use snip20_reference_impl.Execute.Transfer.Frame.{
  try_transfer-Keeps, try_batch_transfer-Keeps, try_transfer_from-Keeps,
  try_batch_transfer_from-Keeps,
}
use snip20_reference_impl.Execute.Send.Frame.{
  try_send-Keeps, try_batch_send-Keeps, try_send_from-Keeps, try_batch_send_from-Keeps,
}
use snip20_reference_impl.Toolkit.{Toolkit}
use snip20_reference_impl.Contract as Contract
use snip20_reference_impl.Contract.{
  ExecuteMsg, deposit, redeem, transfer, send, batch_transfer, batch_send, burn, register_receive,
  increase_allowance, decrease_allowance, transfer_from, send_from, batch_transfer_from,
  batch_send_from, burn_from, batch_burn_from, mint, batch_mint, answered, try_register_receive,
  admin_execute, running, execute,
}
use snip20_reference_impl.Contract.Frame.{
  settings, answered-Keeps, delete_permit_revocation-Keeps, revoke_all_permits-Keeps,
  revoke_permit-Keeps, rules-Keeps, try_batch_burn_from-Keeps, try_batch_mint-Keeps, try_burn-Keeps,
  try_burn_from-Keeps, try_create_key-Keeps, try_decrease_allowance-Keeps, try_deposit-Keeps,
  try_increase_allowance-Keeps, try_mint-Keeps, try_redeem-Keeps, try_register_receive-Keeps,
  try_set_key-Keeps,
}

module _ (p : Platform) (toolkit : Toolkit) (env : Env) (info : MessageInfo) where
  -- The admin's handlers are reached by the admin alone.
  by_admin :
      (msg : ExecuteMsg toolkit.Interval) (s : Storage) (r : Response) (s' : Storage)
      → admin_execute p toolkit info msg s ≡ ok (r, s')
      → (config : Config) × (s.config ≡ some config) × (config.admin ≡ info.sender)
  unfolding admin_execute
  by_admin msg s r s' q = elim (Option-cases s.config) [
    | inl no_config ↦ absurd (ground (arith, no_config))
    | inr (config, has_config) ↦ elim (Bool-cases (str_eq config.admin info.sender)) [
      | inl admin ↦ (config, has_config, (eq_iff config.admin info.sender).0 admin)
      | inr other ↦ absurd (ground (arith, has_config, other))
    ]
  ]

  module _ (s : Storage) (r : Response) (s' : Storage) (config : Config)
      (has_config : s.config ≡ some config) (other : config.admin ≢ info.sender) where
    not_by_admin :
        (msg : ExecuteMsg toolkit.Interval)
        → admin_execute p toolkit info msg s ≡ ok (r, s')
        → settings s' ≡ settings s
    not_by_admin msg q =
        let (c, has_c, admin) = by_admin msg s r s' q in
        let same : c ≡ config = some-injective c config (sym has_c ∙ has_config) in
        absurd (other (ap (λ (x : Config). x.admin) (sym same) ∙ admin))

    running-settings :
        (msg : ExecuteMsg toolkit.Interval)
        → running p toolkit env info msg s ≡ ok (r, s')
        → settings s' ≡ settings s
    unfolding running
    running-settings deposit q = (try_deposit-Keeps p toolkit env info).kept s r s' q
    running-settings (redeem amount denom) q =
        (try_redeem-Keeps p toolkit env info amount denom).kept s r s' q
    running-settings (transfer recipient amount memo) q =
        (rules-Keeps (try_transfer-Keeps p env info recipient amount memo)).kept s r s' q
    running-settings (send recipient code_hash amount msg memo) q =
        (rules-Keeps (try_send-Keeps p env info recipient code_hash amount memo msg)).kept s r s' q
    running-settings (batch_transfer actions) q =
        (rules-Keeps (try_batch_transfer-Keeps p env info actions)).kept s r s' q
    running-settings (batch_send actions) q =
        (rules-Keeps (try_batch_send-Keeps p env info actions)).kept s r s' q
    running-settings (burn amount memo) q =
        (try_burn-Keeps p toolkit env info amount memo).kept s r s' q
    running-settings (register_receive hash) q =
        (try_register_receive-Keeps p toolkit env info hash).kept s r s' q
    running-settings (increase_allowance spender amount expiration) q =
        (answered-Keeps
            (try_increase_allowance-Keeps p toolkit env info spender amount expiration)).kept
          s r s' q
    running-settings (decrease_allowance spender amount expiration) q =
        (answered-Keeps
            (try_decrease_allowance-Keeps p toolkit env info spender amount expiration)).kept
          s r s' q
    running-settings (transfer_from owner recipient amount memo) q =
        (rules-Keeps (try_transfer_from-Keeps p env info owner recipient amount memo)).kept s r s' q
    running-settings (send_from owner recipient code_hash amount msg memo) q =
        (rules-Keeps
            (try_send_from-Keeps p env info owner recipient code_hash amount memo msg)).kept
          s r s' q
    running-settings (batch_transfer_from actions) q =
        (rules-Keeps (try_batch_transfer_from-Keeps p env info actions)).kept s r s' q
    running-settings (batch_send_from actions) q =
        (rules-Keeps (try_batch_send_from-Keeps p env info actions)).kept s r s' q
    running-settings (burn_from owner amount memo) q =
        (try_burn_from-Keeps p toolkit env info owner amount memo).kept s r s' q
    running-settings (batch_burn_from actions) q =
        (try_batch_burn_from-Keeps p toolkit env info actions).kept s r s' q
    running-settings (mint recipient amount memo) q =
        (try_mint-Keeps p toolkit env info recipient amount memo).kept s r s' q
    running-settings (batch_mint actions) q =
        (try_batch_mint-Keeps p toolkit env info actions).kept s r s' q
    running-settings (Contract.create_viewing_key entropy) q =
        (answered-Keeps (try_create_key-Keeps p toolkit env info entropy)).kept s r s' q
    running-settings (Contract.set_viewing_key key) q =
        (answered-Keeps (try_set_key-Keeps p toolkit env info key)).kept s r s' q
    running-settings (Contract.revoke_permit permit_name) q =
        (answered-Keeps (revoke_permit-Keeps p toolkit env info permit_name)).kept s r s' q
    running-settings (Contract.revoke_all_permits interval) q =
        (answered-Keeps (revoke_all_permits-Keeps p toolkit env info interval)).kept s r s' q
    running-settings (Contract.delete_permit_revocation revocation_id) q =
        (answered-Keeps (delete_permit_revocation-Keeps p toolkit env info revocation_id)).kept s r
          s' q
    running-settings msg q = not_by_admin msg q

    running_now :
        (msg : ExecuteMsg toolkit.Interval)
        → s.contract_status ≡ some ContractStatusLevel.normal_run
        → execute p toolkit env info msg s ≡ running p toolkit env info msg s
    unfolding execute
    running_now msg h = rw h refl

    no_status :
        (msg : ExecuteMsg toolkit.Interval)
        → s.contract_status ≡ none
        → execute p toolkit env info msg s ≡ err not_found
    unfolding execute
    no_status msg h = rw h refl

    -- A message that succeeds and is not the admin's leaves the configuration, the status, the minters and
    -- the notifications' switch as they were.
    pub execute-settings :
        (msg : ExecuteMsg toolkit.Interval)
        → execute p toolkit env info msg s ≡ ok (r, s')
        → settings s' ≡ settings s
    execute-settings msg q =
        let (all_stopped, some_stopped) = execute_while_stopped p toolkit env info msg s r s' q in
        let no_switch : IsAdminSwitch info msg s s' → settings s' ≡ settings s =
          λ (level, c, m, has_c, admin, after).
            let same : c ≡ config = some-injective c config (sym has_c ∙ has_config) in
            absurd (other (ap (λ (x : Config). x.admin) (sym same) ∙ admin)) in
        elim (Option-cases s.contract_status) [
          | inl missing ↦ absurd (cc (no_status msg missing))
          | inr (ContractStatusLevel.normal_run, h) ↦
              running-settings msg (sym (running_now msg h) ∙ q)
          | inr (ContractStatusLevel.stop_all, h) ↦ no_switch (all_stopped h)
          | inr (ContractStatusLevel.stop_all_but_redeems, h) ↦ elim (some_stopped h) [
            | inl switch ↦ no_switch switch
            | inr (amount, denom, m, redeemed) ↦
                (try_redeem-Keeps p toolkit env info amount denom).kept s r s' redeemed
          ]
        ]
