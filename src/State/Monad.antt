-- ===== src/State/Monad.antt =====
-- The storage, and actions on it that may fail.
use snip20_reference_impl.Common.{
  ℕ, String, Bool, true, false, Option, none, some, List, ◌==◌, if◌then◌else◌,
}
use snip20_reference_impl.Common.Bytes.{Bytes, bytes_eq}
use snip20_reference_impl.Outcome.{Error, Result, ok, err, not_found}
use snip20_reference_impl.Dwb.Types.{DelayedWriteBuffer, TxNode, TxBundle}
use snip20_reference_impl.Btbe.Types.{BtbeBucket, BitwiseTrieNode}
use snip20_reference_impl.TxHistory.{StoredTx}

-- `ContractStatusLevel` of src/msg.rs
pub data ContractStatusLevel : Type 0 where
  normal_run stop_all_but_redeems stop_all : ContractStatusLevel

pub record Config : Type 0 where
  pub name : String
  pub admin : String
  pub symbol : String
  pub decimals : ℕ
  pub total_supply_is_public : Bool
  pub deposit_is_enabled : Bool
  pub redeem_is_enabled : Bool
  pub mint_is_enabled : Bool
  pub burn_is_enabled : Bool
  pub contract_address : String
  pub supported_denoms : List String
  pub can_modify_denoms : Bool

pub record Allowance : Type 0 where
  pub amount : ℕ
  pub expiration : Option ℕ

-- What secret-toolkit keeps, by its raw keys.
abbrev pub Items : Type 0
Items = Bytes → Option Bytes

pub record Storage : Type 0 where
  pub config : Option Config
  pub total_supply : Option ℕ
  pub contract_status : Option ContractStatusLevel
  pub minters : Option (List String)
  pub tx_count : Option ℕ
  pub transactions : ℕ → Option StoredTx
  pub dwb : Option DelayedWriteBuffer
  pub tx_nodes : ℕ → Option TxNode
  pub tx_nodes_count : Option ℕ
  -- keyed by the address and the position
  pub btbe_entry_history : Bytes → ℕ → Option TxBundle
  pub btbe_buckets_count : Option ℕ
  pub btbe_buckets : ℕ → Option BtbeBucket
  pub btbe_trie_nodes : ℕ → Option BitwiseTrieNode
  pub btbe_trie_nodes_count : Option ℕ
  -- keyed by owner and spender
  pub allowances : String → String → Option Allowance
  -- whether the set of a spender holds an owner
  pub allowed : String → String → Bool
  pub receiver_hash : String → Option String
  pub internal_secret_sensitive : Option Bytes
  pub internal_secret_relaxed : Option Bytes
  pub notifications_enabled : Option Bool
  pub toolkit_items : Items
  -- the outputs of `next_u64` to come
  pub draws : List ℕ

abbrev pub M : Type 0 → Type 0
M A = Storage → Result (A × Storage)

infixl 5 ◌>>=◌ ◌>>◌
abbrev pub ◌>>=◌ : {A B : Type 0} → M A → (A → M B) → M B
◌>>=◌ m f s = elim (m s) [ ok (a, s') ↦ f a s' | err e ↦ err e ]

abbrev pub ◌>>◌ : {A B : Type 0} → M A → M B → M B
m >> k = m >>= λ _. k

module _ {A : Type 0} where
  abbrev pub pure : A → M A
  pure a s = ok (a, s)

  abbrev pub raise : Error → M A
  raise e s = err e

  abbrev pub lift : Result A → M A
  lift (ok a) s = ok (a, s)
  lift (err e) s = err e

  -- An action that only reads.
  abbrev pub reads : (Storage → Result A) → M A
  reads f s = lift (f s) s

  abbrev pub gets : (Storage → A) → M A
  gets f s = ok (f s, s)

  -- `Item::load`
  abbrev pub load : (Storage → Option A) → M A
  load f s = elim (f s) [ some a ↦ ok (a, s) | none ↦ err not_found ]

abbrev pub modify : (Storage → Storage) → M (Unit {0})
modify f s = ok (tt, f s)

abbrev pub require : Bool → Error → M (Unit {0})
require true e s = ok (tt, s)
require false e s = err e

-- A map with one key written.
abbrev pub update {ℓ} : {A : Type ℓ} → (ℕ → Option A) → ℕ → A → ℕ → Option A
update f k v j = if k == j then some v else f j

abbrev pub update_bytes {ℓ} : {A : Type ℓ} → (Bytes → A) → Bytes → A → Bytes → A
update_bytes f k v j = if bytes_eq k j then v else f j
