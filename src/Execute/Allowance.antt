-- ===== src/Execute/Allowance.antt =====
-- The allowances and the registration of src/execute.rs.
pub mod Use
use snip20_reference_impl.Common.{
  ℕ, String, Bool, true, false, ◌||◌, Option, none, some, ◌==◌, if◌then◌else◌,
}
use snip20_reference_impl.Outcome.{Result, ok, or_err, insufficient_allowance}
use snip20_reference_impl.Word.{u128_max, checked_sub, saturating_add, saturating_sub}
use snip20_reference_impl.Platform.{Platform}
use snip20_reference_impl.State.{
  Storage, M, Allowance, ◌>>=◌, ◌>>◌, pure, lift, gets, load, modify, require,
}
use snip20_reference_impl.State.Allowances.{is_expired_at, load_allowance, save_allowance}
use snip20_reference_impl.Execute.Types.{Env, MessageInfo}

unfoldable pub use_allowance : Env → String → String → ℕ → M (Unit {0})
use_allowance env owner spender amount = do
  allowance ← gets (λ s. load_allowance s owner spender)
  let void = is_expired_at allowance env.block.seconds || allowance.amount == 0
  new_allowance ← lift (
      or_err (if void then none else checked_sub allowance.amount amount)
        (insufficient_allowance (if void then 0 else allowance.amount) amount))
  save_allowance owner spender (record allowance { amount = new_allowance })

-- An expiration that is given replaces the one that is there.
replace_expiration : Option ℕ → Allowance → Allowance
replace_expiration none a = a
replace_expiration (some time) a = record a { expiration = some time }

increased : Allowance → ℕ → ℕ → Allowance
increased a seconds amount =
    if is_expired_at a seconds
    then record { amount = amount; expiration = none }
    else record a { amount = saturating_add u128_max a.amount amount }

decreased : Allowance → ℕ → ℕ → Allowance
decreased a seconds amount =
    if is_expired_at a seconds
    then record { amount = 0; expiration = none }
    else record a { amount = saturating_sub a.amount amount }

module _ (p : Platform) where
  -- What the two changes of an allowance share: `change` gives the new amount. The allowance that
  -- the response shows is returned.
  change_allowance :
      (Allowance → ℕ → ℕ → Allowance) → Env → MessageInfo → String → ℕ → Option ℕ → M ℕ
  unfolding replace_expiration
  change_allowance change env info spender_name amount expiration = do
    load (λ s. s.internal_secret_sensitive)
    spender ← lift (p.addr_validate spender_name)
    allowance ← gets (λ s. load_allowance s info.sender spender)
    let changed = replace_expiration expiration (change allowance env.block.seconds amount)
    save_allowance info.sender spender changed
    load (λ s. s.notifications_enabled)
    pure changed.amount

  unfoldable pub try_increase_allowance : Env → MessageInfo → String → ℕ → Option ℕ → M ℕ
  unfolding change_allowance increased
  try_increase_allowance = change_allowance increased

  unfoldable pub try_decrease_allowance : Env → MessageInfo → String → ℕ → Option ℕ → M ℕ
  unfolding change_allowance decreased
  try_decrease_allowance = change_allowance decreased
