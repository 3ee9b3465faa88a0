-- ===== src/Outcome.antt =====
-- The outcome of fallible code: `StdResult` of cosmwasm_std, with one constructor of `Error` for
-- each message of the source. A panic ends the call as an error does, so the panics of the
-- overflow checks and of array accesses are errors too.
use snip20_reference_impl.Common.{
  ◌⊎◌, inl, inr, ℕ, ◌≡◌, refl, Bool, true, false, Option, none, some, List, get_elem?, set, length,
  ltb, if◌then◌else◌,
}

pub data Error : Type 0 where
  -- panics
  overflow index_out_of_bounds missing_value : Error
  -- `Item::load` on a key that is not there
  not_found : Error
  -- what a platform call answers
  platform_error : Error
  -- no further output of the random generator was given to the model
  out_of_draws : Error
  -- a loop of the model ran out of its fuel
  out_of_fuel : Error
  invalid_range : Error
  -- `op_name`s are texts of the message only
  insufficient_funds : ℕ → ℕ → Error
  invalid_recipient_length set_recipient_error : Error
  spent_overflow : Error
  invalid_address_length : Error
  insufficient_funds_creating insufficient_funds_merging : ℕ → ℕ → Error
  missing_tx_bundle access_out_of_bounds tx_bundle_not_found : Error
  load_bucket_of_branch store_bucket_to_branch : Error
  unexpected_tx_code : ℕ → Error
  missing_transfer_address missing_mint_address missing_burn_address : Error
  unsupported_coin no_funds deposit_disabled : Error
  redeem_disabled no_denom_given unsupported_redeem_coin redeem_exceeds_supply : Error
  redeem_exceeds_reserve : Error
  mint_disabled not_a_minter : Error
  burn_disabled burn_exceeds_supply : Error
  insufficient_allowance : ℕ → ℕ → Error
  send_to_contract : Error
  minters_not_loaded : Error
  cannot_modify_denoms : Error
  invalid_page_size : Error
  not_admin contract_stopped not_an_admin_function : Error
  invalid_name invalid_symbol invalid_decimals initial_supply_exceeds_maximum : Error

-- A value, or the error that ends the call.
pub data Result {ℓ} (T : Type ℓ) : Type ℓ where
  ok : T → Result T
  err : Error → Result T

-- `ok_or`
abbrev pub or_err {ℓ} : {A : Type ℓ} → Option A → Error → Result A
or_err none e = err e
or_err (some a) e = ok a

-- `unwrap_or`
abbrev pub unwrap_or : {A : Type 0} → A → Option A → A
unwrap_or other none = other
unwrap_or other (some a) = a

-- The operator `?`: the rest of the code runs on the value.
infixl 5 ◌>>=◌
abbrev pub ◌>>=◌ {ℓ κ} : {S : Type ℓ} {T : Type κ} → Result S → (S → Result T) → Result T
err e >>= rest = err e
ok a >>= rest = rest a

infixl 5 ◌>>◌
abbrev pub ◌>>◌ {κ} : {T : Type κ} → Result (Unit {0}) → Result T → Result T
done >> rest = done >>= (λ _. rest)

-- Go on if the test holds.
abbrev pub guard : Bool → Error → Result (Unit {0})
guard false failure = err failure
guard true failure = ok tt

module _ {ℓ} {A : Type ℓ} where
  -- `array[i]`
  abbrev pub index : List A → ℕ → Result A
  index xs i = or_err (get_elem? xs i) index_out_of_bounds

  -- `array[i] = v`
  abbrev pub set_index : List A → ℕ → A → Result (List A)
  set_index xs i v = if ltb i (length xs) then ok (set xs i v) else err index_out_of_bounds

pub Result-cases {ℓ} :
    {A : Type ℓ} (r : Result A) → ((a : A) × (r ≡ ok a)) ⊎ ((e : Error) × (r ≡ err e))
Result-cases (ok a) = inl (a, refl)
Result-cases (err e) = inr (e, refl)

-- What a successful bind went through.
pub >>=-eq-ok {ℓ κ} :
    {S : Type ℓ} {T : Type κ} (m : Result S) (rest : S → Result T) {v : T}
    → (m >>= rest) ≡ ok v
    → (a : S) × (m ≡ ok a) × (rest a ≡ ok v)
>>=-eq-ok (err e) rest done = cc
>>=-eq-ok (ok a) rest done = (a, refl, done)
