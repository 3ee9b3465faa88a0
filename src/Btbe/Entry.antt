-- ===== src/Btbe/Entry.antt =====
-- The bytes of `StoredEntry` of src/btbe.rs: 20 of the address, 8 of the balance, 4 of the history
-- length, and a cache of none.
pub mod Fields
use snip20_reference_impl.Common.{
  ℕ, ◌+◌, ◌-◌, [], ◌∷◌, ◌++◌, length, drop, replicate, ◌==◌, if◌then◌else◌,
}
use snip20_reference_impl.Common.Bytes.{Bytes, slice, copy_into, to_be_bytes, from_be_bytes}
use snip20_reference_impl.Outcome.{Result, ok, err, invalid_address_length}

abbrev pub address_bytes_len : ℕ
address_bytes_len = 20

abbrev pub impossible_addr : Bytes
impossible_addr =
    0x29 ∷ 0xCF ∷ 0xC6 ∷ 0x37 ∷ 0x62 ∷ 0x55 ∷ 0xA7 ∷ 0x84 ∷ 0x51 ∷ 0xEE ∷ 0xB4 ∷ 0xB1 ∷ 0x29 ∷ 0xED
    ∷ 0x8E ∷ 0xAC ∷ 0xFF ∷ 0xA2 ∷ 0xFE ∷ 0xEF ∷ []

abbrev pub bucket_balance_bytes : ℕ
bucket_balance_bytes = 8

abbrev pub bucket_history_bytes : ℕ
bucket_history_bytes = 4

abbrev pub bucket_cache_bytes : ℕ
bucket_cache_bytes = 0

abbrev pub bucket_entry_bytes : ℕ
bucket_entry_bytes =
    address_bytes_len + bucket_balance_bytes + bucket_history_bytes + bucket_cache_bytes

abbrev pub StoredEntry : Type 0
StoredEntry = Bytes

unfoldable pub new : Bytes → Result StoredEntry
new address =
    if length address == address_bytes_len
    then ok (copy_into 0 address (replicate bucket_entry_bytes 0))
    else err invalid_address_length

-- `address_slice`, and `address`, its copy
unfoldable pub address : StoredEntry → Bytes
address e = slice 0 address_bytes_len e

unfoldable pub balance : StoredEntry → ℕ
balance e = from_be_bytes (slice address_bytes_len bucket_balance_bytes e)

unfoldable pub set_balance : ℕ → StoredEntry → StoredEntry
set_balance val e = copy_into address_bytes_len (to_be_bytes 8 val) e

-- All four bytes of a u32 are stored: none is padded and none is dropped.
unfoldable pub history_len : StoredEntry → ℕ
history_len e = from_be_bytes (
    replicate (4 - bucket_history_bytes) 0
    ++ slice (address_bytes_len + bucket_balance_bytes) bucket_history_bytes e)

unfoldable pub set_history_len : ℕ → StoredEntry → StoredEntry
set_history_len val e =
    copy_into (address_bytes_len + bucket_balance_bytes)
      (drop (4 - bucket_history_bytes) (to_be_bytes 4 val)) e
