-- ===== src/Btbe/Bucket.antt =====
-- `BtbeBucket` of src/btbe.rs: a bucket of BTBE_CAPACITY places.
pub mod Matches
pub mod Invariant
use snip20_reference_impl.Common.{
  ℕ, ◌+◌, ◌-◌, ◌*◌, bit_or, Bool, true, false, Option, none, some, List, [], ◌∷◌, replicate, ◌==◌,
  if◌then◌else◌,
}
use snip20_reference_impl.Common.Bytes.{Bytes}
use snip20_reference_impl.Outcome.{Result, ok, ◌>>=◌, index, set_index}
use snip20_reference_impl.Word.{sub_word, bool_word}
use snip20_reference_impl.Platform.{Platform}
use snip20_reference_impl.Btbe.Entry.{StoredEntry, new, address, impossible_addr}
use snip20_reference_impl.Btbe.Types.{BtbeBucket}

module _ (p : Platform) where
  -- `BtbeBucket::new`: every place holds an entry of the address that nobody has.
  unfoldable pub new_bucket : Result BtbeBucket
  new_bucket = do
    entry ← new impossible_addr
    ok (record { capacity = p.btbe_capacity; entries = replicate p.btbe_capacity entry })

  -- Whether the entry was added, and the bucket after it.
  unfoldable pub add_entry : BtbeBucket → StoredEntry → Result (Bool × BtbeBucket)
  add_entry b entry = if b.capacity == 0 then ok (false, b) else (do
    place ← sub_word p.btbe_capacity b.capacity
    entries ← set_index b.entries place entry
    ok (true, record b { entries = entries; capacity = b.capacity - 1 }))

  -- The loop of `constant_time_find_address` from position `idx` on: the position plus one, or 0.
  unfoldable pub find_loop : Bytes → ℕ → ℕ → List StoredEntry → ℕ
  find_loop a idx matched [] = matched
  find_loop a idx matched (e ∷ es) =
      let equals = bool_word (p.constant_time_eq a (address e)) in
      find_loop a (idx + 1) (bit_or matched ((idx + 1) * equals)) es

  unfoldable pub constant_time_find_address : BtbeBucket → Bytes → Result (Option (ℕ × StoredEntry))
  unfolding find_loop
  constant_time_find_address b a =
      let matched = find_loop a 0 0 b.entries in
      if matched == 0
      then ok none
      else (do entry ← index b.entries (matched - 1); ok (some (matched - 1, entry)))
