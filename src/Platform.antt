-- ===== src/Platform.antt =====
-- What the program takes from outside its sources: the capacities that build.rs writes into the
-- generated config.rs, and the calls of other crates. `Documented` states what the code relies on.
use snip20_reference_impl.Common.{ℕ, ◌≤◌, ◌<◌, ◌≡◌, ◌↔◌, Bool, true, String, length}
use snip20_reference_impl.Common.Bytes.{Bytes}
use snip20_reference_impl.Outcome.{Error, Result, ok, err, platform_error}

pub record Platform : Type 0 where
  -- DWB_CAPACITY and BTBE_CAPACITY, of type u16
  pub dwb_capacity : ℕ
  pub btbe_capacity : ℕ
  -- constant_time_eq::constant_time_eq
  pub constant_time_eq : Bytes → Bytes → Bool
  -- secret_toolkit_crypto::hkdf_sha_256 with salt, key, info and length
  pub hkdf_sha_256 : Bytes → Bytes → Bytes → ℕ → Result Bytes
  -- the first output of rand_chacha::ChaChaRng::seed_from_u64
  pub chacha_next_u64 : ℕ → ℕ
  -- cosmwasm_std::Api
  pub addr_validate : String → Result String
  pub addr_canonicalize : String → Result Bytes
  pub addr_humanize : Bytes → Result String
  -- cosmwasm_std::QuerierWrapper::query_balance, the amount of the coin
  pub query_balance : String → String → Result ℕ

pub record Documented (p : Platform) : Type 0 where
  -- DWB_LEN is a u16; a bucket has a place for an entry
  pub dwb_capacity_fits : p.dwb_capacity < 65535
  pub dwb_capacity_pos : 1 ≤ p.dwb_capacity
  pub btbe_capacity_fits : p.btbe_capacity < 65536
  pub btbe_capacity_pos : 1 ≤ p.btbe_capacity
  -- it compares for equality
  pub constant_time_eq_iff : (a b : Bytes) → (p.constant_time_eq a b ≡ true) ↔ (a ≡ b)
  -- it derives as many bytes as are asked for, here always 32
  pub hkdf_sha_256_total :
      (salt key info : Bytes)
      → (hash : Bytes) × (p.hkdf_sha_256 salt key info 32 ≡ ok hash) × (length hash ≡ 32)
  -- an address that cannot be shown is the platform's error
  pub addr_humanize_error : (a : Bytes) (e : Error) → p.addr_humanize a ≡ err e → e ≡ platform_error
