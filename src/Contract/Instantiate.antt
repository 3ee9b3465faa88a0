-- ===== src/Contract/Instantiate.antt =====
-- `instantiate` of src/contract.rs.
pub mod Required
pub mod Started
use snip20_reference_impl.Common.{
  ℕ, ◌+◌, String, Bool, true, false, ◌&&◌, ◌||◌, Option, none, some, List, [], ◌∷◌, ◌++◌, length,
  leb, if◌then◌else◌,
}
use snip20_reference_impl.Common.Bytes.{Bytes, to_be_bytes}
use snip20_reference_impl.Outcome.{
  Result, ok, err, or_err, unwrap_or, invalid_name, invalid_symbol, invalid_decimals, missing_value,
  initial_supply_exceeds_maximum,
}
use snip20_reference_impl.Word.{u128_max, checked_add}
use snip20_reference_impl.Platform.{Platform}
use snip20_reference_impl.State.{
  Storage, Config, M, ContractStatusLevel, ◌>>=◌, ◌>>◌, pure, lift, reads, modify, require,
}
use snip20_reference_impl.State.Minters.{save_minters}
use snip20_reference_impl.TxHistory.Store.{BlockInfo}
use snip20_reference_impl.Dwb.Buffer.{new_buffer}
use snip20_reference_impl.Btbe.Settle.{initialize_btbe}
use snip20_reference_impl.Execute.MintBurn.{perform_mint}
use snip20_reference_impl.Toolkit.{Toolkit}
use snip20_reference_impl.Execute.Types.{Env, MessageInfo, Response, done}

-- `InitialBalance`, `InitConfig` and `InstantiateMsg` of src/msg.rs
pub record InitialBalance : Type 0 where
  pub address : String
  pub amount : ℕ

pub record InitConfig : Type 0 where
  pub public_total_supply : Option Bool
  pub enable_deposit : Option Bool
  pub enable_redeem : Option Bool
  pub enable_mint : Option Bool
  pub enable_burn : Option Bool
  pub can_modify_denoms : Option Bool

pub record InstantiateMsg : Type 0 where
  pub name : String
  pub admin : Option String
  pub symbol : String
  pub decimals : ℕ
  pub initial_balances : Option (List InitialBalance)
  pub prng_seed : Bytes
  pub config : Option InitConfig
  pub supported_denoms : Option (List String)

abbrev pub default_config : InitConfig
default_config = record {
  public_total_supply = none;
  enable_deposit = none;
  enable_redeem = none;
  enable_mint = none;
  enable_burn = none;
  can_modify_denoms = none;
}

abbrev pub is_ascii_alphabetic : ℕ → Bool
is_ascii_alphabetic byte = (leb 65 byte && leb byte 90) || (leb 97 byte && leb byte 122)

abbrev pub all_alphabetic : Bytes → Bool
all_alphabetic [] = true
all_alphabetic (byte ∷ bytes) = is_ascii_alphabetic byte && all_alphabetic bytes

abbrev pub is_valid_name : Bytes → Bool
is_valid_name name = leb 3 (length name) && leb (length name) 30

abbrev pub is_valid_symbol : Bytes → Bool
is_valid_symbol symbol = (leb 3 (length symbol) && leb (length symbol) 20) && all_alphabetic symbol

abbrev pub config_of : Env → InstantiateMsg → String → Config
config_of env msg admin =
    let init_config = unwrap_or default_config msg.config in
    record {
      name = msg.name;
      admin = admin;
      symbol = msg.symbol;
      decimals = msg.decimals;
      total_supply_is_public = unwrap_or false init_config.public_total_supply;
      deposit_is_enabled = unwrap_or false init_config.enable_deposit;
      redeem_is_enabled = unwrap_or false init_config.enable_redeem;
      mint_is_enabled = unwrap_or false init_config.enable_mint;
      burn_is_enabled = unwrap_or false init_config.enable_burn;
      contract_address = env.contract_address;
      supported_denoms = unwrap_or [] msg.supported_denoms;
      can_modify_denoms = unwrap_or false init_config.can_modify_denoms;
    }

abbrev pub first_minters : Config → List String
first_minters config = if config.mint_is_enabled then config.admin ∷ [] else []

-- The `CHANNEL_ID`s of src/notifications.rs
abbrev pub notification_channels : List String
notification_channels = "recvd" ∷ "spent" ∷ "allowance" ∷ "multirecvd" ∷ "multispent" ∷ []

module _ (p : Platform) (toolkit : Toolkit) where
  abbrev pub admin_of : MessageInfo → Option String → Result String
  admin_of info none = ok info.sender
  admin_of info (some admin) = p.addr_validate admin

  -- The secrets, of the salt and the chain's random bytes.
  unfoldable pub create_secrets : Bytes → Bytes → M (Unit {0})
  create_secrets salt rng_seed = do
    sensitive ←
        lift
          (p.hkdf_sha_256 salt rng_seed (toolkit.as_bytes "contract_internal_secret_sensitive") 32)
    modify (λ s. record s { internal_secret_sensitive = some sensitive })
    relaxed ←
        lift (p.hkdf_sha_256 salt rng_seed (toolkit.as_bytes "contract_internal_secret_relaxed") 32)
    modify (λ s. record s { internal_secret_relaxed = some relaxed })

  -- The loop over the channels of the notifications.
  unfoldable pub insert_channels : List String → M (Unit {0})
  insert_channels [] = pure tt
  insert_channels (channel ∷ channels) = do
    items ← reads (λ s. toolkit.insert_channel channel s.toolkit_items)
    modify (λ s. record s { toolkit_items = items })
    insert_channels channels

  -- The loop over the initial balances, with the supply so far.
  unfoldable pub initial_mints : Bytes → String → BlockInfo → List InitialBalance → ℕ → M ℕ
  initial_mints raw_admin symbol block [] total_supply = pure total_supply
  initial_mints raw_admin symbol block (balance ∷ balances) total_supply = do
    balance_address ← lift (p.addr_canonicalize balance.address)
    perform_mint p raw_admin balance_address balance.amount symbol (some "Initial Balance") block
    new_total_supply ←
        lift
          (or_err (checked_add u128_max total_supply balance.amount) initial_supply_exceeds_maximum)
    initial_mints raw_admin symbol block balances new_total_supply

  -- What is saved at the end.
  unfoldable pub save_settings : Config → ℕ → M (Unit {0})
  save_settings config total_supply = do
    modify (λ s. record s { config = some config })
    modify (λ s. record s { total_supply = some total_supply })
    modify (λ s. record s { contract_status = some ContractStatusLevel.normal_run })
    save_minters (first_minters config)

  -- The random bytes of the block are an argument, since no other handler reads them so.
  unfoldable pub instantiate : Option Bytes → Env → MessageInfo → InstantiateMsg → M Response
  unfolding create_secrets insert_channels initial_mints save_settings
  instantiate random env info msg = do
    require (is_valid_name (toolkit.as_bytes msg.name)) invalid_name
    require (is_valid_symbol (toolkit.as_bytes msg.symbol)) invalid_symbol
    require (leb msg.decimals 18) invalid_decimals
    admin ← lift (admin_of info msg.admin)
    initialize_btbe p
    buffer ← lift (new_buffer p)
    modify (λ s. record s { dwb = some buffer })
    raw_admin ← lift (p.addr_canonicalize admin)
    rng_seed ← lift (or_err random missing_value)
    let salt = toolkit.sha_256 (
        to_be_bytes 8 env.block.height
        ++ to_be_bytes 8 env.block.seconds
        ++ toolkit.as_bytes info.sender
        ++ msg.prng_seed)
    create_secrets salt rng_seed
    insert_channels notification_channels
    modify (λ s. record s {
      notifications_enabled = some true;
      draws = toolkit.prng_outputs rng_seed (toolkit.sha_256 msg.prng_seed);
    })
    total_supply ←
        initial_mints raw_admin msg.symbol env.block (unwrap_or [] msg.initial_balances) 0
    save_settings (config_of env msg admin) total_supply
    vk_seed ← lift (p.hkdf_sha_256 salt rng_seed (toolkit.as_bytes "contract_viewing_key") 32)
    modify (λ s. record s { toolkit_items = toolkit.set_seed vk_seed s.toolkit_items })
    pure done
