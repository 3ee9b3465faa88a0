-- ===== src/Execute/Allowance/Use.antt =====
-- What spending from an allowance does.
use text.Mathlib.TextEquality.{eq_iff}
use snip20_reference_impl.Common.{
  ℕ, ◌-◌, ◌<◌, ◌≤◌, String, ◌≡◌, ◌≢◌, ◌⊎◌, true, false, arith, ◌↔◌, refl, some, some-injective, inl,
  inr, Option-cases,
}
use snip20_reference_impl.Outcome.{ok, err, insufficient_allowance}
use snip20_reference_impl.State.{Storage, Allowance}
use snip20_reference_impl.State.Allowances.{
  is_expired_at, load_allowance, with_allowance, save_allowance, load-with,
}
use snip20_reference_impl.Execute.Types.{Env}
use snip20_reference_impl.Execute.Allowance.{use_allowance}

expired-by :
    (a : Allowance) (now : ℕ)
    → (is_expired_at a now ≡ true) ↔ ((time : ℕ) × (a.expiration ≡ some time) × (time ≤ now))
unfolding is_expired_at
expired-by a now = elim (Option-cases a.expiration) [
  | inl unset ↦ rw unset (λ q. absurd cc, λ (time, q, past). absurd cc)
  | inr (end, has) ↦ rw has (
    λ q. (end, refl, ground (arith, q)),
    λ (time, same, past).
        let e : end ≡ time = some-injective end time same in ground (arith, e, past),
  )
]

module _ (env : Env) (owner spender : String) (amount : ℕ) (s : Storage) where
  -- An allowance has expired from the second of its expiration on. One that has expired or is zero
  -- counts as none; one that is too small is refused, and
  -- both errors name what there is. Otherwise the amount is taken from this allowance, with its
  -- expiration kept, and no allowance of another owner or spender changes.
  pub use_allowance_exact :
      let a = load_allowance s owner spender in
      ((is_expired_at a env.block.seconds ≡ true)
        ↔ ((time : ℕ) × (a.expiration ≡ some time) × (time ≤ env.block.seconds)))
      × ((is_expired_at a env.block.seconds ≡ true) ⊎ (a.amount ≡ 0)
          → use_allowance env owner spender amount s ≡ err (insufficient_allowance 0 amount))
      × (is_expired_at a env.block.seconds ≡ false
          → 0 < a.amount
          → a.amount < amount
          → use_allowance env owner spender amount s ≡ err (insufficient_allowance a.amount amount))
      × (is_expired_at a env.block.seconds ≡ false
          → 0 < a.amount
          → amount ≤ a.amount
          → (s' : Storage) × (use_allowance env owner spender amount s ≡ ok (tt, s'))
            × (load_allowance s' owner spender ≡ record a { amount = a.amount - amount })
            × ((o sp : String)
                → (o ≢ owner) ⊎ (sp ≢ spender)
                → load_allowance s' o sp ≡ load_allowance s o sp))
  unfolding use_allowance save_allowance
  use_allowance_exact = (
    expired-by (load_allowance s owner spender) env.block.seconds,
    λ h. ground arith,
    λ live left short. ground arith,
    λ live left enough.
        let a = load_allowance s owner spender in
        let spent : Allowance = record a { amount = a.amount - amount } in
        (
          with_allowance owner spender spent s,
          ground arith,
          ground (
            arith,
            load-with owner spender owner spender spent s,
            eq_iff owner owner,
            eq_iff spender spender,
          ),
          λ o sp other.
              ground
                (arith, load-with owner spender o sp spent s, eq_iff o owner, eq_iff sp spender),
        ),
  )
