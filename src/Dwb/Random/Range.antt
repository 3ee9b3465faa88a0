-- ===== src/Dwb/Random/Range.antt =====
-- The range and the totality of `random_in_range`.
use snip20_reference_impl.Common.{
  ℕ, ◌+◌, ◌-◌, ◌%◌, ◌<◌, ◌≤◌, ◌≡◌, true, inl, inr, List, [], ◌∷◌, arith, ltb, Bool-cases, ◌⊎◌,
}
use snip20_reference_impl.Outcome.{ok, err, invalid_range}
use snip20_reference_impl.Word.{u32_max, u64_max}
use snip20_reference_impl.Dwb.Random.{draw_below, random_in_range}

-- One of the draws is below the threshold.
abbrev pub HasDraw : ℕ → List ℕ → Type 0
HasDraw threshold [] = ⊥
HasDraw threshold (d ∷ ds) = (ltb d threshold ≡ true) ⊎ HasDraw threshold ds

draw_below_total :
    (threshold : ℕ) (ds : List ℕ)
    → HasDraw threshold ds
    → (d : ℕ) × (rest : List ℕ) × (draw_below threshold ds ≡ ok (d, rest)) × (d < threshold)
unfolding draw_below
draw_below_total threshold [] h = absurd h
draw_below_total threshold (d ∷ ds) h = elim (Bool-cases (ltb d threshold)) [
  | inl below ↦ (d, ds, ground arith, ground arith)
  | inr above ↦
      let rest : HasDraw threshold ds = ground arith in
      let (d', ds', e, lt) = draw_below_total threshold ds rest in (d', ds', ground (arith, e), lt)
]

-- A range that is empty is refused, whatever the draws.
pub random_in_range-invalid :
    (a b : ℕ) (ds : List ℕ) → b ≤ a → random_in_range a b ds ≡ err invalid_range
unfolding random_in_range
random_in_range-invalid a b ds h = ground arith

-- On a range of u32 numbers, once the generator gives a number below the threshold, the result lies
-- in the range, its upper end excluded.
pub random_in_range_bounds :
    (a b : ℕ) (ds : List ℕ)
    → a < b
    → b ≤ u32_max
    → HasDraw (u64_max - (b - a)) ds
    → (r : ℕ) × (rest : List ℕ) × (random_in_range a b ds ≡ ok (r, rest)) × (a ≤ r) × (r < b)
unfolding random_in_range
random_in_range_bounds a b ds h fits draws =
    let (d, rest, e, lt) = draw_below_total (u64_max - (b - a)) ds draws in
    let small : d % (b - a) < b - a = omega arith in
    (d % (b - a) + a, rest, ground (arith, e), omega arith, omega arith)
