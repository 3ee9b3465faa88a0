-- ===== src/Execute/Admin.antt =====
-- src/execute_admin.rs: the handlers that only the admin's messages reach.
use snip20_reference_impl.Common.{String, Bool, some, List, [], ◌∷◌, ◌++◌, if◌then◌else◌}
use snip20_reference_impl.Outcome.{
  Result, ok, err, cannot_modify_denoms, mint_disabled, missing_value,
}
use snip20_reference_impl.Outcome.{◌>>=◌ as bind}
use snip20_reference_impl.Platform.{Platform}
use snip20_reference_impl.State.{M, Config, ContractStatusLevel, ◌>>=◌, ◌>>◌, lift, modify, require}
use snip20_reference_impl.State.Minters.{
  contains, remove_all, add_minters, remove_minters, save_minters,
}

save_config : Config → M (Unit {0})
save_config config = modify (λ s. record s { config = some config })

-- The loop of `add_supported_denoms`: a denom that is there already is not added again.
unfoldable pub push_missing : List String → List String → List String
push_missing [] supported = supported
push_missing (denom ∷ denoms) supported =
    push_missing denoms (if contains supported denom then supported else supported ++ denom ∷ [])

unfoldable pub add_supported_denoms : Config → List String → M (Unit {0})
unfolding save_config push_missing
add_supported_denoms config denoms = do
  require config.can_modify_denoms cannot_modify_denoms
  save_config (record config { supported_denoms = push_missing denoms config.supported_denoms })

unfoldable pub remove_supported_denoms : Config → List String → M (Unit {0})
unfolding save_config
remove_supported_denoms config denoms = do
  require config.can_modify_denoms cannot_modify_denoms
  save_config (record config { supported_denoms = remove_all denoms config.supported_denoms })

unfoldable pub set_contract_status : ContractStatusLevel → M (Unit {0})
set_contract_status level = modify (λ s. record s { contract_status = some level })

unfoldable pub set_notification_status : Bool → M (Unit {0})
set_notification_status enabled = modify (λ s. record s { notifications_enabled = some enabled })

module _ (p : Platform) where
  unfoldable pub change_admin : Config → String → M (Unit {0})
  unfolding save_config
  change_admin config name = do
    admin ← lift (p.addr_validate name)
    save_config (record config { admin = admin })

  validate_all : List String → Result (List String)
  validate_all [] = ok []
  validate_all (name ∷ names) =
      bind (p.addr_validate name)
        (λ address. bind (validate_all names) (λ addresses. ok (address ∷ addresses)))

  -- `.unwrap()` on each address
  unwrap : {A : Type 0} → Result A → Result A
  unwrap (ok a) = ok a
  unwrap (err e) = err missing_value

  -- `add_minters`, `remove_minters` and `set_minters`
  unfoldable pub admin_add_minters : Config → List String → M (Unit {0})
  unfolding validate_all unwrap
  admin_add_minters config names = do
    require config.mint_is_enabled mint_disabled
    addresses ← lift (unwrap (validate_all names))
    add_minters addresses

  unfoldable pub admin_remove_minters : Config → List String → M (Unit {0})
  unfolding validate_all
  admin_remove_minters config names = do
    require config.mint_is_enabled mint_disabled
    addresses ← lift (validate_all names)
    remove_minters addresses

  unfoldable pub admin_set_minters : Config → List String → M (Unit {0})
  unfolding validate_all unwrap
  admin_set_minters config names = do
    require config.mint_is_enabled mint_disabled
    addresses ← lift (unwrap (validate_all names))
    save_minters addresses
