-- ===== src/State/Minters.antt =====
-- `MintersStore` of src/state.rs.
use text.Mathlib.Text.{◌==◌ as str_eq}
use text.Mathlib.TextEquality.{eq_iff}
use snip20_reference_impl.Common.{
  String, ◌≡◌, refl, Bool, false, not, ◌&&◌, ◌||◌, Option, none, some, List, [], ◌∷◌, ◌++◌, arith,
  if◌then◌else◌,
}
use snip20_reference_impl.Outcome.{ok, err, minters_not_loaded}
use snip20_reference_impl.State.Monad.{Storage, M, ◌>>=◌, load, modify}

-- `Vec::contains`
unfoldable pub contains : List String → String → Bool
contains [] a = false
contains (x ∷ xs) a = str_eq x a || contains xs a

-- `retain(|x| x != &a)`
unfoldable pub retain_ne : String → List String → List String
retain_ne a [] = []
retain_ne a (x ∷ xs) = let rest = retain_ne a xs in if str_eq x a then rest else x ∷ rest

-- `for minter in minters_to_remove { loaded.retain(..) }`
unfoldable pub remove_all : List String → List String → List String
unfolding retain_ne
remove_all [] loaded = loaded
remove_all (a ∷ rest) loaded = remove_all rest (retain_ne a loaded)

abbrev load_or : {A : Type 0} → (Storage → Option A) → M A
load_or f s = elim (f s) [ some a ↦ ok (a, s) | none ↦ err minters_not_loaded ]

unfoldable pub load_minters : M (List String)
load_minters = load_or (λ s. s.minters)

unfoldable pub save_minters : List String → M (Unit {0})
save_minters to_set = modify (λ s. record s { minters = some to_set })

unfoldable pub add_minters : List String → M (Unit {0})
add_minters to_add = do
  loaded ← load (λ s. s.minters)
  modify (λ s. record s { minters = some (loaded ++ to_add) })

unfoldable pub remove_minters : List String → M (Unit {0})
unfolding remove_all
remove_minters to_remove = do
  loaded ← load_or (λ s. s.minters)
  modify (λ s. record s { minters = some (remove_all to_remove loaded) })

contains-append :
    (xs ys : List String) (a : String) → contains (xs ++ ys) a ≡ (contains xs a || contains ys a)
unfolding contains
contains-append [] ys a = refl
contains-append (x ∷ xs) ys a = ground (arith, contains-append xs ys a)

contains-retain_ne :
    (k a : String) (xs : List String)
    → contains (retain_ne k xs) a ≡ (if str_eq k a then false else contains xs a)
unfolding contains retain_ne
contains-retain_ne k a [] = ground arith
contains-retain_ne k a (x ∷ xs) =
    ground (arith, contains-retain_ne k a xs, eq_iff x k, eq_iff x a, eq_iff k a)

contains-remove_all :
    (ks : List String) (a : String) (xs : List String)
    → contains (remove_all ks xs) a ≡ (contains xs a && not (contains ks a))
unfolding remove_all contains
contains-remove_all [] a xs = ground arith
contains-remove_all (k ∷ ks) a xs =
    ground (arith, contains-remove_all ks a (retain_ne k xs), contains-retain_ne k a xs)

-- Whether an address is a minter, where the list is stored.
abbrev pub is_minter : Storage → String → Bool
is_minter s a = elim s.minters [ none ↦ false | some xs ↦ contains xs a ]

-- Where a list of minters is stored, after adding, the minters are the old ones and the new ones; after removing, the old ones that
-- were not removed, however often they were listed.
pub minters_after :
    (s : Storage) (xs to_add to_remove : List String) (a : String)
    → s.minters ≡ some xs
    → ((s' : Storage) × (add_minters to_add s ≡ ok (tt, s'))
        × (is_minter s' a ≡ (contains xs a || contains to_add a)))
      × ((s' : Storage) × (remove_minters to_remove s ≡ ok (tt, s'))
          × (is_minter s' a ≡ (contains xs a && not (contains to_remove a))))
unfolding add_minters remove_minters
minters_after s xs to_add to_remove a e = (
  (record s { minters = some (xs ++ to_add) }, ground arith, contains-append xs to_add a),
  (
    record s { minters = some (remove_all to_remove xs) },
    ground arith,
    contains-remove_all to_remove a xs,
  ),
)
