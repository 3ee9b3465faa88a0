-- ===== src/Tests/Basics.antt =====
-- The theorems on records, words and draws at concrete inputs.
use snip20_reference_impl.Common.{
  ℕ, ◌+◌, ◌%◌, ◌^◌, ◌<◌, ◌≤◌, ◌≡◌, ◌↔◌, refl, not, ◌&&◌, ◌||◌, inl, some, List, [], ◌∷◌, arith,
  replicate, length, ◌-◌, ◌≢◌, ◌⊎◌,
}
use snip20_reference_impl.Common.Bytes.{Bytes}
use snip20_reference_impl.Outcome.{ok, err, set_recipient_error}
use snip20_reference_impl.Word.{u128_max}
use snip20_reference_impl.ConstantTime.{constant_time_is_not_zero, constant_time_is_not_zero_lem}
use snip20_reference_impl.Dwb.Entry.{
  DwbEntry, set_amount, set_list_len, set_head_node, set_recipient,
}
use snip20_reference_impl.Dwb.Entry.Fields.{IsEntry, view, setters_exact}
use snip20_reference_impl.Dwb.Random.{random_in_range}
use snip20_reference_impl.Dwb.Random.Range.{random_in_range_bounds}
use snip20_reference_impl.State.Supply.{safe_add, safe_add_exact}
use snip20_reference_impl.State.{Storage}
use snip20_reference_impl.State.Minters.{
  contains, add_minters, remove_minters, is_minter, minters_after,
}
use snip20_reference_impl.TxHistory.{TxCode, from_u8, to_u8}
use snip20_reference_impl.TxHistory.RoundTrip.{from_u8-to_u8}
use snip20_reference_impl.Tests.Setup.{fresh, bob}

abbrev blank : Bytes
blank = replicate 35 0

blank-IsEntry : IsEntry blank
blank-IsEntry = record { size = refl; bytes = omega arith }

setters_exact_example :
    (5 < 2 ^ 64 → view (set_amount 5 blank) ≡ record (view blank) { amount = 5 })
    × (5 < 2 ^ 16 → view (set_list_len 5 blank) ≡ record (view blank) { list_len = 5 })
    × (view (set_head_node 5 blank) ≡ record (view blank) { head_node = 5 % 2 ^ 40 })
    × (((length bob ≡ 20)
          × (e' : DwbEntry) × (set_recipient bob blank ≡ ok e')
          × (view e' ≡ record (view blank) { recipient = bob }))
        ⊎ ((length bob ≢ 20) × (set_recipient bob blank ≡ err set_recipient_error)))
setters_exact_example = setters_exact 5 bob blank blank-IsEntry

constant_time_is_not_zero_lem_example : constant_time_is_not_zero 7 ≡ ok 1
constant_time_is_not_zero_lem_example = constant_time_is_not_zero_lem 7 (omega arith)

random_in_range_bounds_example :
    (r : ℕ) × (rest : List ℕ) × (random_in_range 1 3 (9 ∷ 4 ∷ []) ≡ ok (r, rest))
    × (1 ≤ r)
    × (r < 3)
random_in_range_bounds_example =
    random_in_range_bounds 1 3 (9 ∷ 4 ∷ []) (omega arith) (omega arith) (inl refl)

safe_add_exact_example :
    let (total, added) = safe_add (u128_max - 3) 4 in
    (total ≡ (u128_max - 3) + added)
    × ((((u128_max - 3) + 4 ≤ u128_max) × (added ≡ 4))
        ⊎ ((u128_max < (u128_max - 3) + 4) × (total ≡ u128_max)))
safe_add_exact_example = safe_add_exact (u128_max - 3) 4 (omega arith)

abbrev minted_by_alice : Storage
minted_by_alice = record fresh { minters = some ("alice" ∷ []) }

minters_after_example :
    ((s' : Storage) × (add_minters ("bob" ∷ []) minted_by_alice ≡ ok (tt, s'))
      × (is_minter s' "bob" ≡ (contains ("alice" ∷ []) "bob" || contains ("bob" ∷ []) "bob")))
    × ((s' : Storage) × (remove_minters ("alice" ∷ []) minted_by_alice ≡ ok (tt, s'))
        × (is_minter s' "bob"
            ≡ (contains ("alice" ∷ []) "bob" && not (contains ("alice" ∷ []) "bob"))))
minters_after_example =
    minters_after minted_by_alice ("alice" ∷ []) ("bob" ∷ []) ("alice" ∷ []) "bob" refl

from_u8-to_u8_example : (from_u8 1 ≡ ok TxCode.mint) ↔ (to_u8 TxCode.mint ≡ 1)
from_u8-to_u8_example = from_u8-to_u8 1 TxCode.mint
