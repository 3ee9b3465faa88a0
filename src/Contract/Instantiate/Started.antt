-- ===== src/Contract/Instantiate/Started.antt =====
-- What a contract that was instantiated has in its storage.
use snip20_reference_impl.Common.{
  Bool-cases, ℕ, ◌+◌, ◌≤◌, String, ◌≡◌, refl, sym, Bool, true, Option, some, List, [], ◌∷◌, ◌++◌,
  inl, inr, leb, arith, false,
}
use snip20_reference_impl.Common.Bytes.{Bytes, to_be_bytes}
use snip20_reference_impl.Outcome.{
  unwrap_or, Error, Result, ok, err, or_err, initial_supply_exceeds_maximum, Result-cases,
  invalid_name, invalid_symbol, invalid_decimals, missing_value,
}
use snip20_reference_impl.Word.{u128_max, checked_add}
use snip20_reference_impl.Toolkit.{Toolkit}
use snip20_reference_impl.Platform.{Platform}
use snip20_reference_impl.State.{Storage, M, ◌>>=◌, ◌>>◌, pure, lift, require, modify}
use snip20_reference_impl.State.Minters.{save_minters}
use snip20_reference_impl.TxHistory.Store.{BlockInfo}
use snip20_reference_impl.Dwb.Types.{DelayedWriteBuffer}
use snip20_reference_impl.Dwb.Buffer.{new_buffer}
use snip20_reference_impl.Btbe.Settle.{initialize_btbe}
use snip20_reference_impl.Execute.MintBurn.{perform_mint}
use snip20_reference_impl.Execute.Types.{Env, MessageInfo, Response, done}
use snip20_reference_impl.Contract.Instantiate.Required.{
  initial_sum, IsStarted, initial_total, is_valid_name-HasLength, is_valid_symbol-HasLength,
  all_alphabetic-All, admin_of-IsAdmin, config_of-IsConfigured, initial_total-unwrap_or,
}
use snip20_reference_impl.Contract.Instantiate.{
  insert_channels, notification_channels, InitialBalance, InstantiateMsg, is_valid_name,
  is_valid_symbol, config_of, admin_of, initial_mints, save_settings, create_secrets, instantiate,
}

-- Wherever the action succeeds, the value and the storage after it have the property.
record Ends {A : Type 0} (Q : A → Storage → Type 0) (m : M A) : Type 0 where
  ends : (s : Storage) (a : A) (s' : Storage) → m s ≡ ok (a, s') → Q a s'

module _ {A B : Type 0} {Q : B → Storage → Type 0} where
  bind-Ends :
      (P : A → Type 0) {m : M A} {f : A → M B}
      → Ends (λ a s. P a) m
      → ((a : A) → P a → Ends Q (f a))
      → Ends Q (m >>= f)
  bind-Ends P {m} {f} h k = record {
    ends = λ s b s' q. elim (Result-cases (m s)) [
      | inl ((a, t), e) ↦ (k a (h.ends s a t e)).ends t b s' cc
      | inr (x, e) ↦ absurd cc
    ];
  }

  -- An action of which only the success matters.
  after-Ends : (m : M A) {f : A → M B} → ((a : A) → Ends Q (f a)) → Ends Q (m >>= f)
  after-Ends m {f} k =
      bind-Ends (λ a. Unit {0}) {m = m} {f = f} (record { ends = λ s a s' q. tt }) (λ a u. k a)

lift-Ends : {A : Type 0} (r : Result A) → Ends (λ a s. r ≡ ok a) (lift r)
lift-Ends (ok a) = record { ends = λ s b s' q. cc }
lift-Ends (err x) = record { ends = λ s b s' q. absurd cc }

require-Ends : (test : Bool) (x : Error) → Ends (λ u s. test ≡ true) (require test x)
require-Ends true x = record { ends = λ s u s' q. refl }
require-Ends false x = record { ends = λ s u s' q. absurd cc }

checked-fits :
    (a b c : ℕ)
    → or_err (checked_add u128_max a b) initial_supply_exceeds_maximum ≡ ok c
    → (c ≡ a + b) × (c ≤ u128_max)
checked-fits a b c q = ground arith

module _ (p : Platform) (toolkit : Toolkit) where
  initial_mints-Ends :
      (raw_admin : Bytes) (symbol : String) (block : BlockInfo) (balances : List InitialBalance)
      (total_supply : ℕ)
      → total_supply ≤ u128_max
      → Ends
          (λ t s. (t ≡ total_supply + initial_sum balances) × (t ≤ u128_max))
          (initial_mints p toolkit raw_admin symbol block balances total_supply)
  unfolding initial_mints
  initial_mints-Ends raw_admin symbol block [] total_supply h = record {
    ends = λ s t s' q. ground (arith, h);
  }
  initial_mints-Ends raw_admin symbol block (balance ∷ balances) total_supply h =
      after-Ends {A = Bytes} (lift (p.addr_canonicalize balance.address)) λ address.
        after-Ends {A = Unit {0}}
          (perform_mint p raw_admin address balance.amount symbol (some "Initial Balance") block)
          λ u.
            bind-Ends _
              (lift-Ends (
                or_err (checked_add u128_max total_supply balance.amount)
                  initial_supply_exceeds_maximum))
              λ next e.
                let (sum, fits) = checked-fits total_supply balance.amount next e in
                record {
                  ends = λ s t s' q.
                      let (total, bound) =
                        (initial_mints-Ends raw_admin symbol block balances next fits).ends s t s'
                          q in
                      (omega (arith, sum, total), bound);
                }

module _ (p : Platform) (toolkit : Toolkit) (random : Option Bytes) (env : Env) (info : MessageInfo)
    (msg : InstantiateMsg) where
  save_settings-Ends :
      (admin : String) (total_supply : ℕ) (salt rng_seed : Bytes)
      → (is_valid_name (toolkit.as_bytes msg.name) ≡ true)
      → (is_valid_symbol (toolkit.as_bytes msg.symbol) ≡ true)
      → leb msg.decimals 18 ≡ true
      → admin_of p toolkit info msg.admin ≡ ok admin
      → total_supply ≡ initial_total msg.initial_balances
      → total_supply ≤ u128_max
      → Ends
          (λ r s. IsStarted p toolkit env info msg s)
          (do
            save_settings p toolkit (config_of env msg admin) total_supply
            vk_seed ←
                lift (p.hkdf_sha_256 salt rng_seed (toolkit.as_bytes "contract_viewing_key") 32)
            modify (λ s. record s { toolkit_items = toolkit.set_seed vk_seed s.toolkit_items })
            pure done)
  unfolding save_settings save_minters
  save_settings-Ends admin total_supply salt rng_seed name symbol decimals is_admin sum fits =
      record {
        ends = λ s r s' q.
            elim (Result-cases
              (p.hkdf_sha_256 salt rng_seed (toolkit.as_bytes "contract_viewing_key") 32)) [
                | inr (x, e) ↦ absurd (ground (arith, e))
                | inl (seed, e) ↦
                    let (symbol_fits, letters) = is_valid_symbol-HasLength _ symbol in
                    record {
                      name_length = is_valid_name-HasLength _ name;
                      symbol_length = symbol_fits;
                      symbol_letters = all_alphabetic-All _ letters;
                      few_decimals = ground (arith, decimals);
                      supply = ground (arith, e, sum);
                      fits = rw (sym sum) fits;
                      runs = ground (arith, e);
                      config = config_of env msg admin;
                      has_config = ground (arith, e);
                      configured =
                          config_of-IsConfigured p env info msg admin
                            (admin_of-IsAdmin p toolkit info msg admin is_admin);
                      minters = elim (Bool-cases (config_of env msg admin).mint_is_enabled) [
                        | inl on ↦ inl (on, ground (arith, e, on))
                        | inr off ↦ inr (off, ground (arith, e, off))
                      ];
                    }
              ];
      }

  abbrev balances : List InitialBalance
  balances = unwrap_or [] msg.initial_balances

  abbrev salt : Bytes
  salt = toolkit.sha_256 (
      to_be_bytes 8 env.block.height
      ++ to_be_bytes 8 env.block.seconds
      ++ toolkit.as_bytes info.sender
      ++ msg.prng_seed)

  instantiate-Ends :
      Ends (λ r s. IsStarted p toolkit env info msg s) (instantiate p toolkit random env info msg)
  unfolding instantiate
  instantiate-Ends =
      bind-Ends _ (require-Ends (is_valid_name (toolkit.as_bytes msg.name)) invalid_name) λ u name.
        bind-Ends _ (require-Ends (is_valid_symbol (toolkit.as_bytes msg.symbol)) invalid_symbol)
          λ u symbol.
            bind-Ends _ (require-Ends (leb msg.decimals 18) invalid_decimals) λ u decimals.
              bind-Ends _ (lift-Ends (admin_of p toolkit info msg.admin)) λ admin is_admin.
                after-Ends {A = Unit {0}} (initialize_btbe p) λ u.
                  after-Ends {A = DelayedWriteBuffer} (lift (new_buffer p)) λ buffer.
                    after-Ends {A = Unit {0}} (modify (λ s. record s { dwb = some buffer })) λ u.
                      after-Ends {A = Bytes} (lift (p.addr_canonicalize admin)) λ raw_admin.
                        after-Ends {A = Bytes} (lift (or_err random missing_value)) λ rng_seed.
                          after-Ends {A = Unit {0}} (create_secrets p toolkit salt rng_seed) λ u.
                            after-Ends {A = Unit {0}}
                              (insert_channels p toolkit notification_channels)
                              λ u.
                                after-Ends {A = Unit {0}}
                                  (modify (λ s. record s {
                                    notifications_enabled = some true;
                                    draws =
                                        toolkit.prng_outputs rng_seed
                                          (toolkit.sha_256 msg.prng_seed);
                                  }))
                                  λ u.
                                    bind-Ends _
                                      (initial_mints-Ends p toolkit raw_admin msg.symbol env.block
                                        balances 0 (omega arith))
                                      λ total (sum, fits).
                                        save_settings-Ends admin total salt rng_seed name symbol
                                          decimals is_admin
                                          (omega (
                                            arith,
                                            sum,
                                            initial_total-unwrap_or msg.initial_balances,
                                          ))
                                          fits

  -- Where instantiation succeeds, the name has 3 to 30 bytes, the symbol 3 to 20 letters and the decimals
  -- are at most 18; the supply is the sum of the initial balances and fits a u128; the contract runs,
  -- under a configuration whose admin is the one that the message names, or else the sender, and whose
  -- switches are on exactly where the message has them on; and the admin is the only minter where
  -- minting is on, and nobody is where it is off.
  pub instantiate-IsStarted :
      (s : Storage) (r : Response) (s' : Storage)
      → instantiate p toolkit random env info msg s ≡ ok (r, s')
      → IsStarted p toolkit env info msg s'
  instantiate-IsStarted s r s' q = instantiate-Ends.ends s r s' q
