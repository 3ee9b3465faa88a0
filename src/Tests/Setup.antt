-- ===== src/Tests/Setup.antt =====
-- A platform of concrete functions, accounts and storage.
use text.Mathlib.Text.{◌==◌ as str_eq}
use snip20_reference_impl.Common.{
  ℕ, zero, suc, ◌≡◌, refl, ap, false, none, some, [], ◌∷◌, arith, length, replicate, if◌then◌else◌,
}
use snip20_reference_impl.Common.Bytes.{Bytes, bytes_eq, bytes_eq_iff}
use snip20_reference_impl.Outcome.{ok, err, platform_error}
use snip20_reference_impl.State.{Storage, Items}
use snip20_reference_impl.Toolkit.{Toolkit}
use snip20_reference_impl.Platform.{Platform, Documented}

unfoldable pub pad : ℕ → Bytes → Bytes
pad zero xs = []
pad (suc n) [] = 0 ∷ pad n []
pad (suc n) (x ∷ xs) = x ∷ pad n xs

length-pad : (n : ℕ) (xs : Bytes) → length (pad n xs) ≡ n
unfolding pad
length-pad zero xs = refl
length-pad (suc n) [] = ap suc (length-pad n [])
length-pad (suc n) (x ∷ xs) = ap suc (length-pad n xs)

abbrev pub alice : Bytes
alice = replicate 20 7

abbrev pub bob : Bytes
bob = replicate 20 200

-- A hash that is the address, padded, and a buffer and buckets of two places.
unfoldable pub platform : Platform
unfolding pad
platform = record {
  dwb_capacity = 2;
  btbe_capacity = 2;
  constant_time_eq = bytes_eq;
  hkdf_sha_256 = λ salt key info n. ok (pad n info);
  chacha_next_u64 = λ seed. seed;
  addr_validate = λ name. ok name;
  addr_canonicalize = λ name.
      if str_eq name "alice"
      then ok alice
      else if str_eq name "bob"
      then ok bob
      else err platform_error;
  addr_humanize = λ a. if bytes_eq a alice then ok "alice" else ok "bob";
  query_balance = λ account denom. ok 1000;
}

pub platform-Documented : Documented platform
unfolding platform
platform-Documented = record {
  dwb_capacity_fits = omega arith;
  dwb_capacity_pos = omega arith;
  btbe_capacity_fits = omega arith;
  btbe_capacity_pos = omega arith;
  constant_time_eq_iff = bytes_eq_iff;
  hkdf_sha_256_total = λ salt key info. (pad 32 info, refl, length-pad 32 info);
  addr_humanize_error = λ a e q. ground arith;
}

-- Empty storage.
abbrev pub fresh : Storage
fresh = record {
  config = none;
  total_supply = none;
  contract_status = none;
  minters = none;
  tx_count = none;
  transactions = λ id. none;
  dwb = none;
  tx_nodes = λ id. none;
  tx_nodes_count = none;
  btbe_entry_history = λ address position. none;
  btbe_buckets_count = none;
  btbe_buckets = λ id. none;
  btbe_trie_nodes = λ id. none;
  btbe_trie_nodes_count = none;
  allowances = λ owner spender. none;
  allowed = λ spender owner. false;
  receiver_hash = λ account. none;
  internal_secret_sensitive = none;
  internal_secret_relaxed = none;
  notifications_enabled = none;
  toolkit_items = λ key. none;
  draws = [];
}

abbrev stored_at : Bytes → Bytes → Items → Items
stored_at key value items k = if bytes_eq key k then some value else items k

-- A toolkit that keeps a seed under the key 1, a viewing key under 2, and no revocations. The texts
-- that the tests name have the bytes of their letters.
abbrev pub toolkit : Toolkit
toolkit = record {
  Interval = ℕ;
  as_bytes = λ text.
      if str_eq text "Secret" then 83 ∷ 101 ∷ 99 ∷ 114 ∷ 101 ∷ 116 ∷ [] else 83 ∷ 67 ∷ 82 ∷ 84 ∷ [];
  sha_256 = λ bytes. replicate 32 1;
  prng_outputs = λ seed entropy. 5 ∷ 6 ∷ 7 ∷ 8 ∷ [];
  rand_bytes = λ draws. (replicate 32 2, draws);
  set_seed = λ seed. stored_at (1 ∷ []) seed;
  set_viewing_key = λ account key. stored_at (2 ∷ []) (3 ∷ []);
  create_viewing_key = λ info env account entropy items. ("key", stored_at (2 ∷ []) entropy items);
  revoke_permit = λ account name items. items;
  revoke_all_permits = λ account interval items. ok (1, items);
  delete_revocation = λ account id items. ok items;
  insert_channel = λ channel items. ok items;
}
