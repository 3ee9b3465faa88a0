-- ===== src/Contract/Frame.antt =====
-- What the handlers leave as it is: the settings of the contract.
use snip20_reference_impl.Common.{ℕ, String, ap, Bool, Option, List}
use snip20_reference_impl.Platform.{Platform}
use snip20_reference_impl.State.{Storage, Allowance, Config, M, ContractStatusLevel}
use snip20_reference_impl.State.Allowances.{save_allowance, with_allowance}
use snip20_reference_impl.State.Frame.{Keeps, Rules, rules, frame}
use snip20_reference_impl.Dwb.Frame.{settle_sender_or_owner_account-Keeps}
use snip20_reference_impl.Execute.Types.{Env, MessageInfo}
use snip20_reference_impl.Execute.Allowance.{try_increase_allowance, try_decrease_allowance}
use snip20_reference_impl.Execute.Deposit.{try_deposit, try_redeem}
use snip20_reference_impl.Execute.MintBurn.{
  MintAction, BurnFromAction, try_mint, try_batch_mint, burn_supply, try_burn, try_burn_from,
  try_batch_burn_from,
}
use snip20_reference_impl.Execute.Frame.{
  perform_deposit-Keeps, try_mint_impl-Keeps, store_burn_action-Keeps, store_redeem_action-Keeps,
  use_allowance-Keeps, burn_for-Keeps,
}
use snip20_reference_impl.Execute.Supply.Raised.{may_mint-Keeps, batch_mint_loop-Keeps}
use snip20_reference_impl.Execute.Supply.Lowered.{batch_burn_loop-Keeps}
use snip20_reference_impl.Toolkit.{Toolkit}
use snip20_reference_impl.Execute.Keys.{
  try_set_key, try_create_key, revoke_permit, revoke_all_permits, delete_permit_revocation,
}
use snip20_reference_impl.Contract.{answered, try_register_receive}

-- The configuration, the status, the minters and the notifications' switch.
pub record Settings : Type 0 where
  pub config : Option Config
  pub contract_status : Option ContractStatusLevel
  pub minters : Option (List String)
  pub notifications_enabled : Option Bool

abbrev pub settings : Storage → Settings
settings s = record {
  config = s.config;
  contract_status = s.contract_status;
  minters = s.minters;
  notifications_enabled = s.notifications_enabled;
}

pub rules-Keeps : {A : Type 0} {m : M A} → Keeps rules m → Keeps settings m
rules-Keeps h = record {
  kept = λ s a s' q.
      ap
        (λ (r : Rules). record {
          config = r.config;
          contract_status = r.contract_status;
          minters = r.minters;
          notifications_enabled = r.notifications_enabled;
        })
        (h.kept s a s' q);
}

pub answered-Keeps : {A : Type 0} {m : M A} → Keeps settings m → Keeps settings (answered m)
answered-Keeps h = search (frame, h)

module _ (p : Platform) (toolkit : Toolkit) (env : Env) (info : MessageInfo) where
  pub try_deposit-Keeps : Keeps settings (try_deposit p env info)
  unfolding try_deposit
  try_deposit-Keeps = search (frame, rules-Keeps, perform_deposit-Keeps) depth 20

  pub try_redeem-Keeps :
      (amount : ℕ) (denom : Option String) → Keeps settings (try_redeem p env info amount denom)
  unfolding try_redeem
  try_redeem-Keeps amount denom =
      search (frame, store_redeem_action-Keeps, settle_sender_or_owner_account-Keeps, rules-Keeps)
        depth 24 fits 20000

  pub burn_supply-Keeps : (amount : ℕ) → Keeps settings (burn_supply p amount)
  unfolding burn_supply
  burn_supply-Keeps amount = search frame depth 8

  pub try_burn-Keeps :
      (amount : ℕ) (memo : Option String) → Keeps settings (try_burn p env info amount memo)
  unfolding try_burn
  try_burn-Keeps amount memo =
      search
        (
          frame, rules-Keeps, store_burn_action-Keeps, settle_sender_or_owner_account-Keeps,
          burn_supply-Keeps,
        )
        depth 24

  pub try_burn_from-Keeps :
      (owner : String) (amount : ℕ) (memo : Option String)
      → Keeps settings (try_burn_from p env info owner amount memo)
  unfolding try_burn_from
  try_burn_from-Keeps owner amount memo =
      search (frame, rules-Keeps, use_allowance-Keeps, burn_for-Keeps, burn_supply-Keeps) depth 24

  pub try_batch_burn_from-Keeps :
      (actions : List BurnFromAction) → Keeps settings (try_batch_burn_from p env info actions)
  unfolding try_batch_burn_from
  try_batch_burn_from-Keeps actions = search (frame, rules-Keeps, batch_burn_loop-Keeps) depth 24

  pub try_mint-Keeps :
      (recipient : String) (amount : ℕ) (memo : Option String)
      → Keeps settings (try_mint p env info recipient amount memo)
  unfolding try_mint
  try_mint-Keeps recipient amount memo =
      search (frame, rules-Keeps, may_mint-Keeps, try_mint_impl-Keeps) depth 24

  pub try_batch_mint-Keeps :
      (actions : List MintAction) → Keeps settings (try_batch_mint p env info actions)
  unfolding try_batch_mint
  try_batch_mint-Keeps actions =
      search (frame, rules-Keeps, may_mint-Keeps, batch_mint_loop-Keeps) depth 24

  pub save_allowance-Keeps :
      (owner spender : String) (a : Allowance) → Keeps settings (save_allowance owner spender a)
  unfolding save_allowance with_allowance
  save_allowance-Keeps owner spender a = search frame

  pub try_increase_allowance-Keeps :
      (spender : String) (amount : ℕ) (expiration : Option ℕ)
      → Keeps settings (try_increase_allowance p env info spender amount expiration)
  unfolding try_increase_allowance
  try_increase_allowance-Keeps spender amount expiration =
      search (frame, save_allowance-Keeps) depth 16

  pub try_decrease_allowance-Keeps :
      (spender : String) (amount : ℕ) (expiration : Option ℕ)
      → Keeps settings (try_decrease_allowance p env info spender amount expiration)
  unfolding try_decrease_allowance
  try_decrease_allowance-Keeps spender amount expiration =
      search (frame, save_allowance-Keeps) depth 16

  pub try_register_receive-Keeps : (hash : String) → Keeps settings (try_register_receive info hash)
  unfolding try_register_receive
  try_register_receive-Keeps hash = search frame

  pub try_set_key-Keeps : (key : String) → Keeps settings (try_set_key toolkit info key)
  unfolding try_set_key
  try_set_key-Keeps key = search frame

  pub try_create_key-Keeps :
      (entropy : Option String) → Keeps settings (try_create_key toolkit env info entropy)
  unfolding try_create_key
  try_create_key-Keeps entropy = search frame depth 8

  pub revoke_permit-Keeps : (name : String) → Keeps settings (revoke_permit toolkit info name)
  unfolding revoke_permit
  revoke_permit-Keeps name = search frame

  pub revoke_all_permits-Keeps :
      (interval : toolkit.Interval) → Keeps settings (revoke_all_permits toolkit info interval)
  unfolding revoke_all_permits
  revoke_all_permits-Keeps interval = search frame depth 8

  pub delete_permit_revocation-Keeps :
      (id : String) → Keeps settings (delete_permit_revocation toolkit info id)
  unfolding delete_permit_revocation
  delete_permit_revocation-Keeps id = search frame depth 8
