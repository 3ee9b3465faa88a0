-- ===== src/Toolkit.antt =====
-- What the program takes from secret-toolkit and SHA-256: the generator, and the viewing keys, the
-- permits and the channels, which the toolkit keeps in storage items of its own.
use snip20_reference_impl.Common.{ℕ, String, List}
use snip20_reference_impl.Common.Bytes.{Bytes}
use snip20_reference_impl.Outcome.{Result}
use snip20_reference_impl.State.{Items}
use snip20_reference_impl.Execute.Types.{Env, MessageInfo}

pub record Toolkit : Type 1 where
  -- secret_toolkit::permit::AllRevokedInterval
  pub Interval : Type 0
  -- str::as_bytes
  pub as_bytes : String → Bytes
  -- secret_toolkit::crypto::sha_256
  pub sha_256 : Bytes → Bytes
  -- the outputs of ContractPrng::new with a seed and an entropy
  pub prng_outputs : Bytes → Bytes → List ℕ
  -- ContractPrng::rand_bytes, of the outputs to come, and those that are left
  pub rand_bytes : List ℕ → Bytes × List ℕ
  -- ViewingKey::set_seed, set with an account and a key, and create with an account and an entropy
  pub set_seed : Bytes → Items → Items
  pub set_viewing_key : String → String → Items → Items
  pub create_viewing_key : MessageInfo → Env → String → Bytes → Items → String × Items
  -- the methods of RevokedPermits, with an account
  pub revoke_permit : String → String → Items → Items
  pub revoke_all_permits : String → Interval → Items → Result (ℕ × Items)
  pub delete_revocation : String → String → Items → Result Items
  -- Keyset::insert of the channels' set
  pub insert_channel : String → Items → Result Items
