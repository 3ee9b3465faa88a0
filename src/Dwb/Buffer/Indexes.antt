-- ===== src/Dwb/Buffer/Indexes.antt =====
-- The positions that `add_recipient` selects without branching are those of the plain conditionals.
use snip20_reference_impl.Common.{
  ℕ, ◌-◌, ◌%◌, ◌^◌, ◌<◌, ◌≤◌, ◌≡◌, ap, List, some, arith, get_elem?, ◌==◌, if◌then◌else◌,
}
use snip20_reference_impl.Outcome.{ok}
use snip20_reference_impl.Word.{u16_max, sub_word}
use snip20_reference_impl.ConstantTime.{
  constant_time_is_not_zero, constant_time_is_not_zero_lem, constant_time_if_else-flag,
}
use snip20_reference_impl.Platform.{Platform, Documented}
use snip20_reference_impl.State.{Storage}
use snip20_reference_impl.Dwb.Entry.{DwbEntry, list_len}
use snip20_reference_impl.Dwb.Types.{DelayedWriteBuffer}
use snip20_reference_impl.Dwb.Random.{random_in_range}
use snip20_reference_impl.Dwb.Buffer.{choose_indexes, draw_in_range, dwb_len}

-- Which entry to settle: the recipient's own if its list is full, else the dummy if the recipient is
-- in the buffer or a place is free, else the random one.
abbrev pub settle_index : ℕ → ℕ → ℕ → ℕ → ℕ
settle_index found free len random =
    if len == u16_max then found else if found == 0 then (if free == 0 then random else 0) else 0

-- Where to write: over the recipient's entry, else at the next free place, else over the entry that
-- is settled.
abbrev pub write_index : ℕ → ℕ → ℕ → ℕ → ℕ → ℕ
write_index found free next settle random =
    if found == 0 then (if free == 0 then settle else next) else found

-- A free place is taken by a recipient that was not there.
abbrev pub places_taken : ℕ → ℕ → ℕ
places_taken found free = if free == 0 then 0 else (if found == 0 then 1 else 0)

draw_in_range-ok :
    (a b : ℕ) {random : ℕ} {rest : List ℕ} (s : Storage)
    → random_in_range a b s.draws ≡ ok (random, rest)
    → draw_in_range a b s ≡ ok (random, record s { draws = rest })
unfolding draw_in_range
draw_in_range-ok a b s e = rw e

-- For a found position below 2 ^ 31 that is an index of the buffer, and a draw that succeeds, the
-- positions to settle and to write and the places taken are those of the conditionals above.
pub choose_indexes_exact :
    (p : Platform) (b : DelayedWriteBuffer) (s : Storage) (found random : ℕ) (rest : List ℕ)
    {current : DwbEntry}
    → Documented p
    → found < 2 ^ 31
    → b.empty_space_counter ≤ p.dwb_capacity
    → get_elem? b.entries found ≡ some current
    → list_len current ≤ u16_max
    → random_in_range 1 (dwb_len p) s.draws ≡ ok (random, rest)
    → choose_indexes p b found s ≡ (
        let settle = settle_index found b.empty_space_counter (list_len current) random in
        ok (
          (
            settle,
            write_index found b.empty_space_counter
                (dwb_len p - b.empty_space_counter)
                settle
                random,
            places_taken found b.empty_space_counter,
          ),
          record s { draws = rest },
        ))
unfolding choose_indexes
choose_indexes_exact p b s found random rest {current} doc h c g l r =
    let free = b.empty_space_counter in
    let fits = doc.dwb_capacity_fits in
    let whole : found % 2 ^ 32 ≡ found = omega arith in
    let next : sub_word (dwb_len p) free ≡ ok (dwb_len p - free) = ground arith in
    let room : sub_word u16_max (list_len current) ≡ ok (u16_max - list_len current) =
      ground arith in
    let kept : ℕ = if free == 0 then random else 0 in
    let presumed : ℕ = if found == 0 then kept else 0 in
    let settled : ℕ = if u16_max - list_len current == 0 then found else presumed in
    let placed : ℕ = if free == 0 then settled else dwb_len p - free in
    let taken : ℕ = if found == 0 then 1 else 0 in
    ground (
      arith,
      ap constant_time_is_not_zero whole,
      constant_time_is_not_zero_lem found h,
      constant_time_is_not_zero_lem free (omega arith),
      next,
      draw_in_range-ok 1 (dwb_len p) s r,
      room,
      constant_time_is_not_zero_lem (u16_max - list_len current) (omega arith),
      constant_time_if_else-flag free 0 random,
      constant_time_if_else-flag found 0 kept,
      constant_time_if_else-flag (u16_max - list_len current) presumed found,
      constant_time_if_else-flag free (dwb_len p - free) settled,
      constant_time_if_else-flag found found placed,
      constant_time_if_else-flag found 0 1,
      constant_time_if_else-flag free taken 0,
    )
