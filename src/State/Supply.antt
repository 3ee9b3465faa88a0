-- ===== src/State/Supply.antt =====
-- `safe_add` and `safe_add_u64` of src/state.rs: the new balance, and how much of the amount went
-- in.
use snip20_reference_impl.Common.{ℕ, ◌+◌, ◌-◌, ◌≤◌, ◌<◌, ◌≡◌, ◌⊎◌, inl, inr, leb, Bool-cases, arith}
use snip20_reference_impl.Word.{u64_max, u128_max, saturating_add}

unfoldable pub safe_add : ℕ → ℕ → ℕ × ℕ
safe_add balance amount =
    let new_balance = saturating_add u128_max balance amount in (new_balance, new_balance - balance)

unfoldable pub safe_add_u64 : ℕ → ℕ → ℕ × ℕ
safe_add_u64 balance amount =
    let new_balance = saturating_add u64_max balance amount in (new_balance, new_balance - balance)

-- From a balance that fits a u128, safe_add reports exactly what it adds, adds everything if the sum
-- fits a u128, and else fills the balance up to the largest u128.
pub safe_add_exact :
    (balance amount : ℕ)
    → balance ≤ u128_max
    → let (total, added) = safe_add balance amount in
      (total ≡ balance + added)
      × (((balance + amount ≤ u128_max) × (added ≡ amount))
          ⊎ ((u128_max < balance + amount) × (total ≡ u128_max)))
unfolding safe_add
safe_add_exact balance amount h = (
  ground arith,
  elim (Bool-cases (leb (balance + amount) u128_max)) [
    | inl fits ↦ inl (ground (arith, fits), ground (arith, fits))
    | inr above ↦ inr (ground (arith, above), ground (arith, above))
  ],
)
