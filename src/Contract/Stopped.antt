-- ===== src/Contract/Stopped.antt =====
-- What a contract that is stopped still does.
use text.Mathlib.Text.{◌==◌ as str_eq}
use text.Mathlib.TextEquality.{eq_iff}
use snip20_reference_impl.Common.{
  ℕ, String, ◌≡◌, refl, sym, ◌∙◌, if◌then◌else◌, Bool, true, false, Option, some, ◌⊎◌, inl, inr,
  arith, Option-cases, Bool-cases,
}
use snip20_reference_impl.Outcome.{ok}
use snip20_reference_impl.Platform.{Platform}
use snip20_reference_impl.State.{Storage, Config, ContractStatusLevel}
use snip20_reference_impl.Execute.Types.{Env, MessageInfo, Response}
use snip20_reference_impl.Execute.Deposit.{try_redeem}
use snip20_reference_impl.Execute.Admin as Admin
use snip20_reference_impl.Toolkit.{Toolkit}
use snip20_reference_impl.Contract.{ExecuteMsg, set_contract_status, redeem, execute, stopped}

-- The admin sets the status, and nothing else changes.
abbrev pub IsAdminSwitch : {I : Type 0} → MessageInfo → ExecuteMsg I → Storage → Storage → Type 0
IsAdminSwitch info msg s s' =
    (level : ContractStatusLevel) × (config : Config) × (msg ≡ set_contract_status level)
    × (s.config ≡ some config)
    × (config.admin ≡ info.sender)
    × (s' ≡ record s { contract_status = some level })

-- A redemption that succeeds.
abbrev pub IsRedemption :
    {I : Type 0}
    → Platform
    → Env
    → MessageInfo
    → ExecuteMsg I
    → Storage
    → Response
    → Storage
    → Type 0
IsRedemption p env info msg s r s' =
    (amount : ℕ) × (denom : Option String) × (msg ≡ redeem amount denom)
    × (try_redeem p env info amount denom s ≡ ok (r, s'))

module _ (p : Platform) (toolkit : Toolkit) (env : Env) (info : MessageInfo) where
  switch_by_admin :
      (redeems : Bool) (level : ContractStatusLevel) (s : Storage) (r : Response) (s' : Storage)
      → stopped p toolkit redeems env info (set_contract_status level) s ≡ ok (r, s')
      → IsAdminSwitch {I = toolkit.Interval} info (set_contract_status level) s s'
  unfolding stopped Admin.set_contract_status
  switch_by_admin redeems level s r s' q = elim (Option-cases s.config) [
    | inl no_config ↦ absurd (ground (arith, no_config))
    | inr (config, has_config) ↦ elim (Bool-cases (str_eq config.admin info.sender)) [
      | inl admin ↦ (
        level,
        config,
        refl,
        has_config,
        (eq_iff config.admin info.sender).0 admin,
        ground (arith, has_config, admin),
      )
      | inr other ↦ absurd (ground (arith, has_config, other))
    ]
  ]

  stopped-cases :
      (redeems : Bool) (msg : ExecuteMsg toolkit.Interval) (s : Storage) (r : Response)
      (s' : Storage)
      → stopped p toolkit redeems env info msg s ≡ ok (r, s')
      → IsAdminSwitch info msg s s' ⊎ ((redeems ≡ true) × IsRedemption p env info msg s r s')
  unfolding stopped
  stopped-cases redeems (set_contract_status level) s r s' q =
      inl (switch_by_admin redeems level s r s' q)
  stopped-cases true (redeem amount denom) s r s' q = inr (refl, (amount, denom, refl, q))
  stopped-cases redeems msg s r s' q = absurd cc

  execute-stopped :
      (redeems : Bool) (msg : ExecuteMsg toolkit.Interval) (s : Storage)
      → s.contract_status
        ≡ some (
            if redeems
            then ContractStatusLevel.stop_all_but_redeems
            else ContractStatusLevel.stop_all)
      → execute p toolkit env info msg s ≡ stopped p toolkit redeems env info msg s
  unfolding execute
  execute-stopped true msg s h = rw h refl
  execute-stopped false msg s h = rw h refl

  -- While everything is stopped, what succeeds is the admin's setting of the status alone; while all but
  -- redemptions is stopped, it is that or a redemption.
  pub execute_while_stopped :
      (msg : ExecuteMsg toolkit.Interval) (s : Storage) (r : Response) (s' : Storage)
      → execute p toolkit env info msg s ≡ ok (r, s')
      → (s.contract_status ≡ some ContractStatusLevel.stop_all → IsAdminSwitch info msg s s')
        × (s.contract_status ≡ some ContractStatusLevel.stop_all_but_redeems
            → IsAdminSwitch info msg s s' ⊎ IsRedemption p env info msg s r s')
  execute_while_stopped msg s r s' q = (
    λ h. elim (stopped-cases false msg s r s' (sym (execute-stopped false msg s h) ∙ q)) [
      | inl switch ↦ switch
      | inr (no_redeem, x) ↦ absurd cc
    ],
    λ h. elim (stopped-cases true msg s r s' (sym (execute-stopped true msg s h) ∙ q)) [
      | inl switch ↦ inl switch
      | inr (yes_redeem, x) ↦ inr x
    ],
  )
