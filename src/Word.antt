-- ===== src/Word.antt =====
-- The machine words of the program: unsigned numbers with their largest values, with the checked
-- and the saturating operations that the source uses. The release profile of Cargo.toml has
-- overflow-checks on, so `+` and `-` on words panic where they do not fit.
use snip20_reference_impl.Common.{
  ℕ, ◌+◌, ◌-◌, ◌^◌, Option, none, some, leb, if◌then◌else◌, ◌%◌, Bool, true, false,
}
use snip20_reference_impl.Outcome.{Result, ok, err, overflow}

abbrev pub u16_max : ℕ
u16_max = 2 ^ 16 - 1

abbrev pub u32_max : ℕ
u32_max = 2 ^ 32 - 1

abbrev pub u64_max : ℕ
u64_max = 2 ^ 64 - 1

abbrev pub u128_max : ℕ
u128_max = 2 ^ 128 - 1

-- `a + b` on words up to `max`
abbrev pub add_word : ℕ → ℕ → ℕ → Result ℕ
add_word max a b = if leb (a + b) max then ok (a + b) else err overflow

-- `a - b` on words
abbrev pub sub_word : ℕ → ℕ → Result ℕ
sub_word a b = if leb b a then ok (a - b) else err overflow

abbrev pub checked_sub : ℕ → ℕ → Option ℕ
checked_sub a b = if leb b a then some (a - b) else none

abbrev pub checked_add : ℕ → ℕ → ℕ → Option ℕ
checked_add max a b = if leb (a + b) max then some (a + b) else none

abbrev pub saturating_add : ℕ → ℕ → ℕ → ℕ
saturating_add max a b = if leb (a + b) max then a + b else max

abbrev pub saturating_sub : ℕ → ℕ → ℕ
saturating_sub a b = a - b

-- `a.wrapping_sub(b)` on u32
abbrev pub wrapping_sub_u32 : ℕ → ℕ → ℕ
wrapping_sub_u32 a b = (a + 2 ^ 32 - b) % 2 ^ 32

-- `test as u32`, `test as usize`
abbrev pub bool_word : Bool → ℕ
bool_word true = 1
bool_word false = 0
