-- ===== src/Btbe/Entry/Fields.antt =====
-- The bytes of a stored entry as three fields: what each reads after each write.
use snip20_reference_impl.Common.{ℕ, ◌+◌, ◌^◌, ◌≤◌, ◌<◌, ◌≡◌, ◌∙◌, arith, length, All, replicate}
use snip20_reference_impl.Common.Bytes.{
  Bytes, IsByte, slice, copy_into, to_be_bytes, from_be_bytes, length-to_be_bytes, from_be-to_be,
  from_be_bytes-lt, to_be_bytes-IsByte, slice-IsByte, slice-copy_into, slice-copy_into_above,
  slice-copy_into_below, length-copy_into, copy_into-IsByte, length-slice,
}
use snip20_reference_impl.Outcome.{ok}
use snip20_reference_impl.Btbe.Entry.{
  StoredEntry, new, address, balance, set_balance, history_len, set_history_len,
}

-- An array of 32 bytes.
pub record IsStoredEntry (e : StoredEntry) : Type 0 where
  pub size : length e ≡ 32
  pub bytes : All IsByte e

-- What the three fields of an entry hold.
pub record View : Type 0 where
  pub address : Bytes
  pub balance : ℕ
  pub history_len : ℕ

abbrev pub view : StoredEntry → View
view e = record { address = address e; balance = balance e; history_len = history_len e }

field_bound :
    (s n : ℕ) (e : StoredEntry)
    → IsStoredEntry e
    → s + n ≤ 32
    → from_be_bytes (slice s n e) < 256 ^ n
field_bound s n e h fits =
    rw (length-slice s n e (omega arith)) at
      (from_be_bytes-lt (slice s n e) (slice-IsByte s n e h.bytes))

-- Each write changes its own field, and leaves the others.
pub view-set_balance :
    (v : ℕ) (e : StoredEntry)
    → IsStoredEntry e
    → v < 2 ^ 64
    → view (set_balance v e) ≡ record (view e) { balance = v }
unfolding set_balance address balance history_len
view-set_balance v e h lt =
    let bs = to_be_bytes 8 v in
    let n = length-to_be_bytes 8 v in
    cc (
      slice-copy_into 20 8 bs e n (omega arith),
      from_be-to_be 8 v lt,
      slice-copy_into_below 20 0 20 bs e (omega arith),
      slice-copy_into_above 20 28 4 bs e (omega arith),
    )

pub view-set_history_len :
    (v : ℕ) (e : StoredEntry)
    → IsStoredEntry e
    → v < 2 ^ 32
    → view (set_history_len v e) ≡ record (view e) { history_len = v }
unfolding set_history_len address balance history_len
view-set_history_len v e h lt =
    let bs = to_be_bytes 4 v in
    let n = length-to_be_bytes 4 v in
    cc (
      slice-copy_into 28 4 bs e n (omega arith),
      from_be-to_be 4 v lt,
      slice-copy_into_below 28 0 20 bs e (omega arith),
      slice-copy_into_below 28 20 8 bs e (omega arith),
    )

-- A new entry belongs to its address and holds nothing.
pub view-new :
    (a : Bytes)
    → length a ≡ 20
    → (e : StoredEntry) × (new a ≡ ok e)
      × (view e ≡ record { address = a; balance = 0; history_len = 0 })
unfolding new address balance history_len from_be_bytes
view-new a n =
    let blank = replicate 32 0 in
    (
      copy_into 0 a blank,
      ground arith,
      cc (
        slice-copy_into 0 20 a blank n (omega arith),
        slice-copy_into_above 0 20 8 a blank (omega arith),
        slice-copy_into_above 0 28 4 a blank (omega arith),
      ),
    )

-- The length and the bytes are kept.
pub set_balance-IsStoredEntry :
    (v : ℕ) (e : StoredEntry) → IsStoredEntry e → IsStoredEntry (set_balance v e)
unfolding set_balance
set_balance-IsStoredEntry v e h = record {
  size = length-copy_into 20 (to_be_bytes 8 v) e ∙ h.size;
  bytes = copy_into-IsByte 20 (to_be_bytes 8 v) e (to_be_bytes-IsByte 8 v) h.bytes;
}

pub set_history_len-IsStoredEntry :
    (v : ℕ) (e : StoredEntry) → IsStoredEntry e → IsStoredEntry (set_history_len v e)
unfolding set_history_len
set_history_len-IsStoredEntry v e h = record {
  size = length-copy_into 28 (to_be_bytes 4 v) e ∙ h.size;
  bytes = copy_into-IsByte 28 (to_be_bytes 4 v) e (to_be_bytes-IsByte 4 v) h.bytes;
}

pub new-IsStoredEntry :
    (a : Bytes) {e : StoredEntry} → All IsByte a → new a ≡ ok e → IsStoredEntry e
unfolding new
new-IsStoredEntry a {e} bs p =
    let blank = replicate 32 0 in
    let q : copy_into 0 a blank ≡ e = ground arith in
    rw (← q) (record {
      size = length-copy_into 0 a blank;
      bytes = copy_into-IsByte 0 a blank bs (omega arith);
    })

-- The values that the fields can hold.
pub view_bounds :
    (e : StoredEntry)
    → IsStoredEntry e
    → (length (address e) ≡ 20) × (balance e < 2 ^ 64) × (history_len e < 2 ^ 32)
unfolding address balance history_len
view_bounds e h = (
  length-slice 0 20 e (omega arith),
  field_bound 20 8 e h (omega arith),
  field_bound 28 4 e h (omega arith),
)
