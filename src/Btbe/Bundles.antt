-- ===== src/Btbe/Bundles.antt =====
-- The methods of `StoredEntry` of src/btbe.rs that read storage only: its bundles of transactions,
-- its bit in the trie, and its reading by position. `amount_u64` of src/dwb.rs.
use snip20_reference_impl.Common.{
  ℕ, ◌+◌, ◌-◌, ◌*◌, ◌/◌, ◌%◌, ◌^◌, Bool, not, Option, none, some, [], ◌∷◌, take, ltb, leb, ◌==◌,
  if◌then◌else◌,
}
use snip20_reference_impl.Common.Bytes.{Bytes, copy_into}
use snip20_reference_impl.Outcome.{
  Result, ok, err, ◌>>=◌, or_err, index, not_found, access_out_of_bounds, tx_bundle_not_found,
  spent_overflow,
}
use snip20_reference_impl.Word.{u64_max, u32_max, add_word}
use snip20_reference_impl.Platform.{Platform}
use snip20_reference_impl.Dwb.Types.{TxBundle}
use snip20_reference_impl.State.{Storage}
use snip20_reference_impl.Btbe.Entry.{
  StoredEntry, address, history_len, address_bytes_len, bucket_balance_bytes, bucket_history_bytes,
  bucket_cache_bytes,
}

unfoldable pub amount_u64 : Option ℕ → Result ℕ
amount_u64 none = ok 0
amount_u64 (some amount_spent) =
    if leb amount_spent u64_max then ok amount_spent else err spent_overflow

unfoldable pub get_tx_bundle_at_unchecked : StoredEntry → ℕ → Storage → Result TxBundle
get_tx_bundle_at_unchecked e pos s =
    or_err (s.btbe_entry_history (address e) pos) tx_bundle_not_found

unfoldable pub get_tx_bundle_at : StoredEntry → ℕ → Storage → Result TxBundle
unfolding get_tx_bundle_at_unchecked
get_tx_bundle_at e pos s =
    if leb (history_len e) pos then err access_out_of_bounds else get_tx_bundle_at_unchecked e pos s

-- "bucketing-salt"
abbrev pub bucketing_salt_bytes : Bytes
bucketing_salt_bytes =
    98 ∷ 117 ∷ 99 ∷ 107 ∷ 101 ∷ 116 ∷ 105 ∷ 110 ∷ 103 ∷ 45 ∷ 115 ∷ 97 ∷ 108 ∷ 116 ∷ []

-- The bit of a byte at position `bit_pos % 8`, counted from the highest.
abbrev pub bit_of_byte : ℕ → ℕ → ℕ
bit_of_byte byte bit_pos = byte / 2 ^ (7 - bit_pos % 8) % 2

module _ (p : Platform) where
  -- The cache of no bytes is written with none, after the hash has been computed.
  unfoldable pub save_hash_cache : StoredEntry → Storage → Result StoredEntry
  save_hash_cache e s = do
    secret ← or_err s.internal_secret_sensitive not_found
    hash_bytes ← p.hkdf_sha_256 bucketing_salt_bytes secret (address e) 32
    ok (
        copy_into (address_bytes_len + bucket_balance_bytes + bucket_history_bytes)
          (take bucket_cache_bytes hash_bytes) e)

  key_byte : StoredEntry → ℕ → Bytes → Result ℕ
  key_byte e bit_pos secret =
      if ltb bit_pos (bucket_cache_bytes * 8)
      then index e (address_bytes_len + bucket_balance_bytes + bucket_history_bytes + bit_pos / 8)
      else (do
        key_bytes ← p.hkdf_sha_256 bucketing_salt_bytes secret (address e) 32
        index key_bytes (bit_pos / 8))

  unfoldable pub routes_to_right_node : StoredEntry → ℕ → Bytes → Result Bool
  unfolding key_byte
  routes_to_right_node e bit_pos secret = do
    byte ← key_byte e bit_pos secret
    ok (not (bit_of_byte byte bit_pos == 0))

-- `stored_tx_count`: the transactions up to the end of the last bundle.
unfoldable pub stored_tx_count : Option StoredEntry → Storage → Result ℕ
unfolding get_tx_bundle_at
stored_tx_count none s = ok 0
stored_tx_count (some e) s =
    let len = history_len e in
    if ltb 0 len
    then (do
      bundle ← get_tx_bundle_at e (len - 1) s
      add_word u32_max bundle.offset bundle.list_len)
    else ok 0
