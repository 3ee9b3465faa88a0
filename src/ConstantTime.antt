-- ===== src/ConstantTime.antt =====
-- The branch-free selections of src/dwb.rs.
use Prim.Native.Nat.{bit_and}
use native.Mathlib.Nat.{mul-zero, mul-one}
use snip20_reference_impl.Common.{
  ℕ, zero, suc, ◌-◌, ◌*◌, ◌%◌, ◌^◌, ◌<◌, bit_or, ◌≡◌, refl, arith, ltb, ◌==◌, if◌then◌else◌,
  zero-bit_or, bit_or-zero, le-bit_or_right,
}
use snip20_reference_impl.Outcome.{Result, ok, err, overflow}

-- `-value` of an i32 given by its bit pattern; it overflows at the least value.
abbrev neg_i32 : ℕ → Result ℕ
neg_i32 value = if value == 2 ^ 31 then err overflow else ok ((2 ^ 32 - value) % 2 ^ 32)

-- The arithmetic shift of an i32 to the right by 31: the sign bit in every place.
abbrev shr_31 : ℕ → ℕ
shr_31 value = if ltb value (2 ^ 31) then 0 else 2 ^ 32 - 1

-- `constant_time_is_not_zero`: `((value | -value) >> 31) & 1`
unfoldable pub constant_time_is_not_zero : ℕ → Result ℕ
constant_time_is_not_zero value = elim (neg_i32 value) [
  | ok negated ↦ ok (bit_and (shr_31 (bit_or value negated)) 1)
  | err e ↦ err e
]

-- `(then * condition) | (els * (1 - condition))`; `1 - condition` overflows above 1.
unfoldable pub constant_time_if_else : ℕ → ℕ → ℕ → Result ℕ
constant_time_if_else condition then_value else_value =
    if ltb 1 condition
    then err overflow
    else ok (bit_or (then_value * condition) (else_value * (1 - condition)))

-- The same on u32, of which a product with a condition of 0 or 1 never overflows.
unfoldable pub constant_time_if_else_u32 : ℕ → ℕ → ℕ → Result ℕ
constant_time_if_else_u32 condition then_value else_value =
    if ltb 1 condition
    then err overflow
    else ok (bit_or (then_value * condition) (else_value * (1 - condition)))

-- The number 1 for a value other than 0, as the sources of conditions give it.
abbrev pub flag : ℕ → ℕ
flag zero = 0
flag (suc n) = 1

-- Below 2 ^ 31 the sign trick gives 0 for zero and 1 for the rest.
pub constant_time_is_not_zero_lem :
    (value : ℕ) → value < 2 ^ 31 → constant_time_is_not_zero value ≡ ok (flag value)
unfolding constant_time_is_not_zero
constant_time_is_not_zero_lem zero h = refl
constant_time_is_not_zero_lem (suc n) h =
    ground (arith, le-bit_or_right (suc n) ((2 ^ 32 - suc n) % 2 ^ 32))

-- On a flag the selection is the conditional: the first value unless the flagged number is zero.
pub constant_time_if_else-flag :
    (n a b : ℕ) → constant_time_if_else (flag n) a b ≡ ok (if n == 0 then b else a)
unfolding constant_time_if_else
constant_time_if_else-flag zero a b = ground (arith, zero-bit_or b, mul-zero a, mul-one b)
constant_time_if_else-flag (suc n) a b = ground (arith, bit_or-zero a, mul-zero b, mul-one a)

pub constant_time_if_else_u32-flag :
    (n a b : ℕ) → constant_time_if_else_u32 (flag n) a b ≡ ok (if n == 0 then b else a)
unfolding constant_time_if_else_u32
constant_time_if_else_u32-flag zero a b = ground (arith, zero-bit_or b, mul-zero a, mul-one b)
constant_time_if_else_u32-flag (suc n) a b = ground (arith, bit_or-zero a, mul-zero b, mul-one a)
