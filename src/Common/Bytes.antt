-- ===== src/Common/Bytes.antt =====
-- Byte strings: a list of numbers below 256, the big-endian form of a number, and fields of a
-- byte array, read by a slice and written by `copy_from_slice`.
use Prim.Native.Nat.{ℕ, zero, suc, ◌+◌, ◌*◌, ◌/◌, ◌%◌, ◌^◌, ◌≤◌, ◌<◌}
use mathlib.Core.Path.{◌≡◌, refl, ap, ◌∙◌}
use mathlib.Core.Logic.{◌↔◌}
use mathlib.Core.Bool.{Bool, true, false, ◌&&◌}
use mathlib.Core.List.{List, [], ◌∷◌, ◌++◌}
use native.Mathlib.Omega.{arith}
use native.Mathlib.Nat.{pow-suc, pow-succ', mul_assoc}
use snip20_reference_impl.Common.Tests.{◌==◌}
use snip20_reference_impl.Common.Lists.{length, take, drop, length-append, All}

abbrev pub Bytes : Type 0
Bytes = List ℕ

abbrev pub IsByte : ℕ → Type 0
IsByte b = b < 256

-- `w` bytes of `n`, the most significant first: `n.to_be_bytes()` of a type of `w` bytes.
unfoldable pub to_be_bytes : ℕ → ℕ → Bytes
to_be_bytes zero n = []
to_be_bytes (suc w) n = to_be_bytes w (n / 256) ++ (n % 256) ∷ []

abbrev pub from_be_acc : ℕ → Bytes → ℕ
from_be_acc acc [] = acc
from_be_acc acc (b ∷ bs) = from_be_acc (acc * 256 + b) bs

unfoldable pub from_be_bytes : Bytes → ℕ
from_be_bytes bs = from_be_acc 0 bs

from_be_acc-append :
    (acc : ℕ) (xs ys : Bytes) → from_be_acc acc (xs ++ ys) ≡ from_be_acc (from_be_acc acc xs) ys
from_be_acc-append acc [] ys = refl
from_be_acc-append acc (x ∷ xs) ys = from_be_acc-append (acc * 256 + x) xs ys

pub length-to_be_bytes : (w n : ℕ) → length (to_be_bytes w n) ≡ w
unfolding to_be_bytes
length-to_be_bytes zero n = refl
length-to_be_bytes (suc w) n = omega (
  arith,
  length-append (to_be_bytes w (n / 256)) ((n % 256) ∷ []),
  length-to_be_bytes w (n / 256),
)

-- Reading back the bytes of a number that fits gives the number.
pub from_be-to_be : (w n : ℕ) → n < 256 ^ w → from_be_bytes (to_be_bytes w n) ≡ n
unfolding from_be_bytes to_be_bytes
from_be-to_be zero n h = omega arith
from_be-to_be (suc w) n h =
    let small : n / 256 < 256 ^ w = omega (arith, pow-suc 256 w) in
    from_be_acc-append 0 (to_be_bytes w (n / 256)) ((n % 256) ∷ [])
    ∙ omega (arith, from_be-to_be w (n / 256) small)

-- The last five of the eight bytes of a number are the number modulo 2 ^ 40.
pub from_be-drop_three : (n : ℕ) → from_be_bytes (drop 3 (to_be_bytes 8 n)) ≡ n % 2 ^ 40
unfolding from_be_bytes to_be_bytes
from_be-drop_three n = omega arith

All-append {ℓ κ} :
    {A : Type ℓ} (P : A → Type κ) (xs ys : List A) → All P xs → All P ys → All P (xs ++ ys)
All-append P [] ys h k = k
All-append P (x ∷ xs) ys h k = (h.0, All-append P xs ys h.1 k)

pub to_be_bytes-IsByte : (w n : ℕ) → All IsByte (to_be_bytes w n)
unfolding to_be_bytes
to_be_bytes-IsByte zero n = tt
to_be_bytes-IsByte (suc w) n =
    All-append IsByte (to_be_bytes w (n / 256)) ((n % 256) ∷ []) (to_be_bytes-IsByte w (n / 256))
      (omega arith, tt)

from_be_acc-lt :
    (acc k : ℕ) (bs : Bytes) → All IsByte bs → acc < k → from_be_acc acc bs < k * 256 ^ length bs
from_be_acc-lt acc k [] h lt = omega arith
from_be_acc-lt acc k (b ∷ bs) h lt =
    let next : acc * 256 + b < k * 256 = omega (arith, h.0) in
    rw (pow-succ' 256 (length bs), ← mul_assoc k 256 (256 ^ length bs))
      (from_be_acc-lt (acc * 256 + b) (k * 256) bs h.1 next)

pub from_be_bytes-lt : (bs : Bytes) → All IsByte bs → from_be_bytes bs < 256 ^ length bs
unfolding from_be_bytes
from_be_bytes-lt bs h = omega (arith, from_be_acc-lt 0 1 bs h (omega arith))

-- Equality of byte strings, and of keys made of them.
unfoldable pub bytes_eq : Bytes → Bytes → Bool
bytes_eq [] [] = true
bytes_eq [] (y ∷ ys) = false
bytes_eq (x ∷ xs) [] = false
bytes_eq (x ∷ xs) (y ∷ ys) = x == y && bytes_eq xs ys

pub bytes_eq_iff : (xs ys : Bytes) → (bytes_eq xs ys ≡ true) ↔ (xs ≡ ys)
unfolding bytes_eq
bytes_eq_iff [] [] = ground arith
bytes_eq_iff [] (y ∷ ys) = ground arith
bytes_eq_iff (x ∷ xs) [] = ground arith
bytes_eq_iff (x ∷ xs) (y ∷ ys) = ground (arith, bytes_eq_iff xs ys)

-- `array[s .. s + n]`
abbrev pub slice : ℕ → ℕ → Bytes → Bytes
slice s n xs = take n (drop s xs)

over : Bytes → Bytes → Bytes
over [] xs = xs
over (b ∷ v) [] = []
over (b ∷ v) (x ∷ xs) = b ∷ over v xs

-- `array[s .. s + v.len()].copy_from_slice(v)`, for a slice inside the array.
unfoldable pub copy_into : ℕ → Bytes → Bytes → Bytes
unfolding over
copy_into zero v xs = over v xs
copy_into (suc s) v [] = []
copy_into (suc s) v (x ∷ xs) = x ∷ copy_into s v xs

length-over : (v xs : Bytes) → length (over v xs) ≡ length xs
unfolding over
length-over [] xs = refl
length-over (b ∷ v) [] = refl
length-over (b ∷ v) (x ∷ xs) = ap suc (length-over v xs)

pub copy_into_nothing : (s : ℕ) (xs : Bytes) → copy_into s [] xs ≡ xs
unfolding copy_into
copy_into_nothing zero xs = refl
copy_into_nothing (suc s) [] = refl
copy_into_nothing (suc s) (x ∷ xs) = ap (λ (ys : Bytes). x ∷ ys) (copy_into_nothing s xs)

pub length-copy_into : (s : ℕ) (v xs : Bytes) → length (copy_into s v xs) ≡ length xs
unfolding copy_into
length-copy_into zero v xs = length-over v xs
length-copy_into (suc s) v [] = refl
length-copy_into (suc s) v (x ∷ xs) = ap suc (length-copy_into s v xs)

over-IsByte : (v xs : Bytes) → All IsByte v → All IsByte xs → All IsByte (over v xs)
unfolding over
over-IsByte [] xs hv h = h
over-IsByte (b ∷ v) [] hv h = tt
over-IsByte (b ∷ v) (x ∷ xs) hv h = (hv.0, over-IsByte v xs hv.1 h.1)

pub copy_into-IsByte :
    (s : ℕ) (v xs : Bytes) → All IsByte v → All IsByte xs → All IsByte (copy_into s v xs)
unfolding copy_into
copy_into-IsByte zero v xs hv h = over-IsByte v xs hv h
copy_into-IsByte (suc s) v [] hv h = tt
copy_into-IsByte (suc s) v (x ∷ xs) hv h = (h.0, copy_into-IsByte s v xs hv h.1)

take-over : (v xs : Bytes) → length v ≤ length xs → take (length v) (over v xs) ≡ v
unfolding over
take-over [] xs h = refl
take-over (b ∷ v) [] h = elim h [ ]
take-over (b ∷ v) (x ∷ xs) h = ap (λ t. b ∷ t) (take-over v xs (omega arith))

-- A field that has been written holds what was written,
pub slice-copy_into :
    (s n : ℕ) (v xs : Bytes) → length v ≡ n → s + n ≤ length xs → slice s n (copy_into s v xs) ≡ v
unfolding copy_into
slice-copy_into zero n v xs e h = rw (← e) (take-over v xs (omega arith))
slice-copy_into (suc s) n v [] e h = absurd (omega arith)
slice-copy_into (suc s) n v (x ∷ xs) e h = slice-copy_into s n v xs e (omega arith)

drop-over : (k : ℕ) (v xs : Bytes) → length v ≤ k → drop k (over v xs) ≡ drop k xs
unfolding over
drop-over k [] xs h = refl
drop-over zero (b ∷ v) xs h = elim h [ ]
drop-over (suc k) (b ∷ v) [] h = refl
drop-over (suc k) (b ∷ v) (x ∷ xs) h = drop-over k v xs (omega arith)

-- a field behind it keeps its bytes,
pub slice-copy_into_above :
    (s t n : ℕ) (v xs : Bytes) → s + length v ≤ t → slice t n (copy_into s v xs) ≡ slice t n xs
unfolding copy_into
slice-copy_into_above zero t n v xs h = ap (take n) (drop-over t v xs (omega arith))
slice-copy_into_above (suc s) zero n v xs h = absurd (omega arith)
slice-copy_into_above (suc s) (suc t) n v [] h = refl
slice-copy_into_above (suc s) (suc t) n v (x ∷ xs) h =
    slice-copy_into_above s t n v xs (omega arith)

-- and so does a field in front of it.
pub slice-copy_into_below :
    (s t n : ℕ) (v xs : Bytes) → t + n ≤ s → slice t n (copy_into s v xs) ≡ slice t n xs
unfolding copy_into
slice-copy_into_below zero zero zero v xs h = refl
slice-copy_into_below zero zero (suc n) v xs h = absurd (omega arith)
slice-copy_into_below zero (suc t) n v xs h = absurd (omega arith)
slice-copy_into_below (suc s) zero zero v xs h = refl
slice-copy_into_below (suc s) zero (suc n) v [] h = refl
slice-copy_into_below (suc s) zero (suc n) v (x ∷ xs) h =
    ap (λ t. x ∷ t) (slice-copy_into_below s zero n v xs (omega arith))
slice-copy_into_below (suc s) (suc t) n v [] h = refl
slice-copy_into_below (suc s) (suc t) n v (x ∷ xs) h =
    slice-copy_into_below s t n v xs (omega arith)

pub length-slice : (s n : ℕ) (xs : Bytes) → s + n ≤ length xs → length (slice s n xs) ≡ n
length-slice zero zero xs h = refl
length-slice zero (suc n) [] h = absurd (omega arith)
length-slice zero (suc n) (x ∷ xs) h = ap suc (length-slice zero n xs (omega arith))
length-slice (suc s) n [] h = absurd (omega arith)
length-slice (suc s) n (x ∷ xs) h = length-slice s n xs (omega arith)

pub slice-IsByte : (s n : ℕ) (xs : Bytes) → All IsByte xs → All IsByte (slice s n xs)
slice-IsByte zero zero xs h = tt
slice-IsByte zero (suc n) [] h = tt
slice-IsByte zero (suc n) (x ∷ xs) h = (h.0, slice-IsByte zero n xs h.1)
slice-IsByte (suc s) zero [] h = tt
slice-IsByte (suc s) (suc n) [] h = tt
slice-IsByte (suc s) n (x ∷ xs) h = slice-IsByte s n xs h.1
