-- ===== src/Dwb/Random.antt =====
-- `random_in_range` of src/dwb.rs: draws until one lies below the threshold.
pub mod Range
use snip20_reference_impl.Common.{
  ℕ, ◌+◌, ◌-◌, ◌%◌, List, [], ◌∷◌, Bool, true, false, leb, ltb, if◌then◌else◌,
}
use snip20_reference_impl.Outcome.{Result, ok, err, ◌>>=◌, invalid_range, out_of_draws}
use snip20_reference_impl.Word.{u32_max, u64_max, add_word}

-- The accepted draw, and the draws behind it.
unfoldable pub draw_below : ℕ → List ℕ → Result (ℕ × List ℕ)
draw_below threshold [] = err out_of_draws
draw_below threshold (random_u64 ∷ draws) = elim (ltb random_u64 threshold) [
  | true ↦ ok (random_u64, draws)
  | false ↦ draw_below threshold draws
]

unfoldable pub random_in_range : ℕ → ℕ → List ℕ → Result (ℕ × List ℕ)
random_in_range a b draws = if leb b a then err invalid_range else (do
  let range_size = b - a
  drawn ← draw_below (u64_max - range_size) draws
  value ← add_word u32_max (drawn.0 % range_size) a
  ok (value, drawn.1))
