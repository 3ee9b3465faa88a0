-- ===== src/State/Allowances.antt =====
-- `Allowance` and `AllowancesStore` of src/state.rs.
use text.Mathlib.Text.{◌==◌ as str_eq}
use text.Mathlib.TextEquality.{eq_iff}
use snip20_reference_impl.Common.{
  ℕ, String, ◌≡◌, Bool, true, false, none, some, arith, leb, if◌then◌else◌,
}
use snip20_reference_impl.State.Monad.{Storage, M, Allowance, modify}

-- `is_expired_at`, at the block's time in seconds
unfoldable pub is_expired_at : Allowance → ℕ → Bool
is_expired_at a seconds = elim a.expiration [ some time ↦ leb time seconds | none ↦ false ]

abbrev pub default_allowance : Allowance
default_allowance = record { amount = 0; expiration = none }

unfoldable pub load_allowance : Storage → String → String → Allowance
load_allowance s owner spender = elim (s.allowances owner spender) [
  | some a ↦ a
  | none ↦ default_allowance
]

-- The storage with one allowance written, and its owner in the set of the spender.
unfoldable pub with_allowance : String → String → Allowance → Storage → Storage
with_allowance owner spender allowance s = record s {
  allowed = λ sp o.
      if str_eq sp spender
      then (if str_eq o owner then true else s.allowed sp o)
      else s.allowed sp o;
  allowances = λ o sp.
      if str_eq o owner
      then (if str_eq sp spender then some allowance else s.allowances o sp)
      else s.allowances o sp;
}

unfoldable pub save_allowance : String → String → Allowance → M (Unit {0})
save_allowance owner spender allowance = modify (with_allowance owner spender allowance)

unfoldable pub is_allowed : Storage → String → String → Bool
is_allowed s owner spender = s.allowed spender owner

-- Every allowance after one was saved.
pub load-with :
    (owner spender o sp : String) (a : Allowance) (s : Storage)
    → load_allowance (with_allowance owner spender a s) o sp ≡ (
        if str_eq o owner
        then (if str_eq sp spender then a else load_allowance s o sp)
        else load_allowance s o sp)
unfolding load_allowance with_allowance
load-with owner spender o sp a s = ground arith

pub is_allowed-with :
    (owner spender : String) (a : Allowance) (s : Storage)
    → is_allowed (with_allowance owner spender a s) owner spender ≡ true
unfolding is_allowed with_allowance
is_allowed-with owner spender a s = ground (arith, eq_iff owner owner, eq_iff spender spender)
