-- ===== src/Contract/Instantiate/Required.antt =====
-- What a contract that was instantiated is to have in its storage, by the message alone.
use snip20_reference_impl.Common.{
  length, All, ◌⊎◌, ◌↔◌, none, Option-cases, ap, ◌∙◌, ℕ, ◌+◌, ◌≤◌, String, ◌≡◌, refl, Bool, true,
  Option, some, List, [], ◌∷◌, inl, inr, arith, false,
}
use snip20_reference_impl.Common.Bytes.{Bytes}
use snip20_reference_impl.Outcome.{unwrap_or, ok}
use snip20_reference_impl.Word.{u128_max}
use snip20_reference_impl.Toolkit.{Toolkit}
use snip20_reference_impl.Platform.{Platform}
use snip20_reference_impl.State.{Config}
use snip20_reference_impl.State.{Storage, ContractStatusLevel}
use snip20_reference_impl.Execute.Types.{Env, MessageInfo}
use snip20_reference_impl.Contract.Instantiate.{
  InitConfig, default_config, all_alphabetic, InitialBalance, InstantiateMsg, is_valid_name,
  is_valid_symbol, config_of, admin_of,
}

abbrev pub initial_sum : List InitialBalance → ℕ
initial_sum [] = 0
initial_sum (balance ∷ balances) = balance.amount + initial_sum balances

-- What the name, the symbol and the switches of a message are to be.
abbrev pub HasLength : ℕ → ℕ → Bytes → Type 0
HasLength least most bytes = (least ≤ length bytes) × (length bytes ≤ most)

abbrev pub IsLetter : ℕ → Type 0
IsLetter byte = ((65 ≤ byte) × (byte ≤ 90)) ⊎ ((97 ≤ byte) × (byte ≤ 122))

-- A switch is on exactly where the message has it on.
abbrev pub IsSwitched : InstantiateMsg → (InitConfig → Option Bool) → Bool → Type 0
IsSwitched msg switch on =
    (on ≡ true) ↔ ((given : InitConfig) × (msg.config ≡ some given) × (switch given ≡ some true))

-- The sender is the admin unless the message names a valid one.
abbrev pub IsAdmin : Platform → MessageInfo → InstantiateMsg → String → Type 0
IsAdmin p info msg admin =
    ((msg.admin ≡ none) × (admin ≡ info.sender))
    ⊎ ((name : String) × (msg.admin ≡ some name) × (p.addr_validate name ≡ ok admin))

abbrev pub initial_total : Option (List InitialBalance) → ℕ
initial_total none = 0
initial_total (some balances) = initial_sum balances

pub initial_total-unwrap_or :
    (balances : Option (List InitialBalance))
    → initial_total balances ≡ initial_sum (unwrap_or [] balances)
initial_total-unwrap_or none = refl
initial_total-unwrap_or (some balances) = refl

-- The configuration is that of the message.
pub record IsConfigured (p : Platform) (env : Env) (info : MessageInfo) (msg : InstantiateMsg)
    (config : Config) : Type 0 where
  pub admin : IsAdmin p info msg config.admin
  pub name : config.name ≡ msg.name
  pub symbol : config.symbol ≡ msg.symbol
  pub decimals : config.decimals ≡ msg.decimals
  pub contract_address : config.contract_address ≡ env.contract_address
  pub supported_denoms :
      ((msg.supported_denoms ≡ none) × (config.supported_denoms ≡ []))
      ⊎ (msg.supported_denoms ≡ some config.supported_denoms)
  pub public : IsSwitched msg (λ c. c.public_total_supply) config.total_supply_is_public
  pub deposit : IsSwitched msg (λ c. c.enable_deposit) config.deposit_is_enabled
  pub redeem : IsSwitched msg (λ c. c.enable_redeem) config.redeem_is_enabled
  pub mint : IsSwitched msg (λ c. c.enable_mint) config.mint_is_enabled
  pub burn : IsSwitched msg (λ c. c.enable_burn) config.burn_is_enabled
  pub modify_denoms : IsSwitched msg (λ c. c.can_modify_denoms) config.can_modify_denoms

-- The message has the right form, the supply is the sum of the initial balances, the contract runs
-- under the message's configuration, and only an admin of a contract with minting is a minter.
pub record IsStarted (p : Platform) (toolkit : Toolkit) (env : Env) (info : MessageInfo)
    (msg : InstantiateMsg) (s : Storage) : Type 0 where
  pub name_length : HasLength 3 30 (toolkit.as_bytes msg.name)
  pub symbol_length : HasLength 3 20 (toolkit.as_bytes msg.symbol)
  pub symbol_letters : All IsLetter (toolkit.as_bytes msg.symbol)
  pub few_decimals : msg.decimals ≤ 18
  pub supply : s.total_supply ≡ some (initial_total msg.initial_balances)
  pub fits : initial_total msg.initial_balances ≤ u128_max
  pub runs : s.contract_status ≡ some ContractStatusLevel.normal_run
  pub config : Config
  pub has_config : s.config ≡ some config
  pub configured : IsConfigured p env info msg config
  pub minters :
      ((config.mint_is_enabled ≡ true) × (s.minters ≡ some (config.admin ∷ [])))
      ⊎ ((config.mint_is_enabled ≡ false) × (s.minters ≡ some []))

pub is_valid_name-HasLength : (bs : Bytes) → is_valid_name bs ≡ true → HasLength 3 30 bs
is_valid_name-HasLength bs h = (ground (arith, h), ground (arith, h))

pub all_alphabetic-All : (bs : Bytes) → all_alphabetic bs ≡ true → All IsLetter bs
all_alphabetic-All [] h = tt
all_alphabetic-All (b ∷ bs) h = (ground (arith, h), all_alphabetic-All bs (ground (arith, h)))

pub is_valid_symbol-HasLength :
    (bs : Bytes) → is_valid_symbol bs ≡ true → HasLength 3 20 bs × (all_alphabetic bs ≡ true)
is_valid_symbol-HasLength bs h = ((ground (arith, h), ground (arith, h)), ground (arith, h))

switch-IsSwitched :
    (msg : InstantiateMsg) (switch : InitConfig → Option Bool)
    → switch default_config ≡ none
    → IsSwitched msg switch (unwrap_or false (switch (unwrap_or default_config msg.config)))
switch-IsSwitched msg switch off = elim (Option-cases msg.config) [
  | inl missing ↦ rw (missing, off) (λ q. absurd cc, λ (c, q, on). absurd cc)
  | inr (given, has) ↦ rw has (elim (Option-cases (switch given)) [
    | inl unset ↦ rw unset (λ q. absurd cc, λ (c, q, on). absurd cc)
    | inr (on, set) ↦ rw set (λ q. (given, refl, set ∙ ap some q), λ (c, q, turned). cc)
  ])
]

pub admin_of-IsAdmin :
    (p : Platform) (toolkit : Toolkit) (info : MessageInfo) (msg : InstantiateMsg) (admin : String)
    → admin_of p toolkit info msg.admin ≡ ok admin
    → IsAdmin p info msg admin
admin_of-IsAdmin p toolkit info msg admin h = elim (Option-cases msg.admin) [
  | inl missing ↦ inl (missing, ground (arith, missing))
  | inr (name, named) ↦ inr (name, named, ground (arith, named))
]

pub config_of-IsConfigured :
    (p : Platform) (env : Env) (info : MessageInfo) (msg : InstantiateMsg) (admin : String)
    → IsAdmin p info msg admin
    → IsConfigured p env info msg (config_of env msg admin)
config_of-IsConfigured p env info msg admin h = record {
  admin = h;
  name = refl;
  symbol = refl;
  decimals = refl;
  contract_address = refl;
  supported_denoms = elim (Option-cases msg.supported_denoms) [
    | inl missing ↦ inl (missing, rw missing refl)
    | inr (denoms, given) ↦ inr (rw given refl)
  ];
  public = switch-IsSwitched msg (λ c. c.public_total_supply) refl;
  deposit = switch-IsSwitched msg (λ c. c.enable_deposit) refl;
  redeem = switch-IsSwitched msg (λ c. c.enable_redeem) refl;
  mint = switch-IsSwitched msg (λ c. c.enable_mint) refl;
  burn = switch-IsSwitched msg (λ c. c.enable_burn) refl;
  modify_denoms = switch-IsSwitched msg (λ c. c.can_modify_denoms) refl;
}
