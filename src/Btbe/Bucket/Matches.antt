-- ===== src/Btbe/Bucket/Matches.antt =====
-- The entries of an address in a list of entries, and what writing one place does to them.
use snip20_reference_impl.Common.{
  ℕ, zero, suc, ◌+◌, ◌≡◌, ◌≢◌, refl, ap, sym, ◌∙◌, true, false, ◌⊎◌, inl, inr, some, some-injective,
  List, [], ◌∷◌, arith, get_elem?, set, bit_or-zero, zero-bit_or, Bool-cases, if◌then◌else◌,
}
use native.Mathlib.Nat.{mul-zero, mul-one}
use snip20_reference_impl.Common.Bytes.{Bytes, bytes_eq, bytes_eq_iff}
use snip20_reference_impl.Platform.{Platform, Documented}
use snip20_reference_impl.Btbe.Entry.{StoredEntry, address}
use snip20_reference_impl.Btbe.Bucket.{find_loop}

-- The entries of address `a`.
abbrev pub matches : Bytes → List StoredEntry → List StoredEntry
matches a [] = []
matches a (e ∷ es) = let rest = matches a es in if bytes_eq a (address e) then e ∷ rest else rest

pub bytes_eq_refl : (a : Bytes) → bytes_eq a a ≡ true
bytes_eq_refl a = (bytes_eq_iff a a).1 refl

pub bytes_eq_same : (a b : Bytes) → b ≡ a → bytes_eq a b ≡ true
bytes_eq_same a b e = (bytes_eq_iff a b).1 (sym e)

pub bytes_eq_ne : (a b : Bytes) → b ≢ a → bytes_eq a b ≡ false
bytes_eq_ne a b ne = elim (Bool-cases (bytes_eq a b)) [
  | inl e ↦ absurd (ne (sym ((bytes_eq_iff a b).0 e)))
  | inr e ↦ e
]

pub address_cases : (e : StoredEntry) (a : Bytes) → (address e ≡ a) ⊎ (address e ≢ a)
address_cases e a = elim (Bool-cases (bytes_eq a (address e))) [
  | inl hit ↦ inl (sym ((bytes_eq_iff a (address e)).0 hit))
  | inr miss ↦ inr (λ q. cc (bytes_eq_same a (address e) q))
]

module _ (a : Bytes) where
  pub matches_hit :
      (e : StoredEntry) (es : List StoredEntry)
      → address e ≡ a
      → matches a (e ∷ es) ≡ e ∷ matches a es
  matches_hit e es h = rw (bytes_eq_same a (address e) h) refl

  pub matches_miss :
      (e : StoredEntry) (es : List StoredEntry) → address e ≢ a → matches a (e ∷ es) ≡ matches a es
  matches_miss e es h = rw (bytes_eq_ne a (address e) h) refl

  -- An entry of the address that stands in the list is among the matches.
  matches_nonempty :
      (es : List StoredEntry) (i : ℕ) {e : StoredEntry}
      → get_elem? es i ≡ some e
      → address e ≡ a
      → matches a es ≢ []
  matches_nonempty [] i g h = cc
  matches_nonempty (x ∷ xs) zero {e} g h =
      let hx : address x ≡ a = ap address (some-injective x e g) ∙ h in
      rw (matches_hit x xs hx) (λ q. cc)
  matches_nonempty (x ∷ xs) (suc i) g h = elim (Bool-cases (bytes_eq a (address x))) [
    | inl hit ↦ rw hit (λ q. cc)
    | inr miss ↦ rw miss (matches_nonempty xs i g h)
  ]

  -- Writing an entry of another address over one of another address.
  pub matches-set_other :
      (es : List StoredEntry) (i : ℕ) {e : StoredEntry} (e' : StoredEntry)
      → get_elem? es i ≡ some e
      → address e ≢ a
      → address e' ≢ a
      → matches a (set es i e') ≡ matches a es
  matches-set_other [] i e' g h h' = refl
  matches-set_other (x ∷ xs) zero {e} e' g h h' =
      let hx : address x ≢ a = λ q. h (ap address (sym (some-injective x e g)) ∙ q) in
      rw (matches_miss e' xs h', matches_miss x xs hx) refl
  matches-set_other (x ∷ xs) (suc i) e' g h h' = rw (matches-set_other xs i e' g h h') refl

  -- Writing an entry of the address where there was none.
  pub matches-set_new :
      (es : List StoredEntry) (i : ℕ) {e : StoredEntry} (e' : StoredEntry)
      → get_elem? es i ≡ some e
      → matches a es ≡ []
      → address e' ≡ a
      → matches a (set es i e') ≡ e' ∷ []
  matches-set_new [] i e' g empty h' = cc
  matches-set_new (x ∷ xs) zero e' g empty h' = elim (Bool-cases (bytes_eq a (address x))) [
    | inl hit ↦ absurd (ground arith)
    | inr miss ↦ rw (matches_hit e' xs h') (ground arith)
  ]
  matches-set_new (x ∷ xs) (suc i) e' g empty h' = elim (Bool-cases (bytes_eq a (address x))) [
    | inl hit ↦ absurd (ground arith)
    | inr miss ↦ rw miss (matches-set_new xs i e' g (ground arith) h')
  ]

  -- Writing an entry of the address over its only one.
  pub matches-set_self :
      (es : List StoredEntry) (i : ℕ) {e : StoredEntry} (e' : StoredEntry)
      → get_elem? es i ≡ some e
      → address e ≡ a
      → matches a es ≡ e ∷ []
      → address e' ≡ a
      → matches a (set es i e') ≡ e' ∷ []
  matches-set_self [] i e' g h one h' = cc
  matches-set_self (x ∷ xs) zero {e} e' g h one h' =
      let hx : address x ≡ a = ap address (some-injective x e g) ∙ h in
      let rest : matches a xs ≡ [] = cc (matches_hit x xs hx) in
      rw (matches_hit e' xs h', rest) refl
  matches-set_self (x ∷ xs) (suc i) e' g h one h' = elim (Bool-cases (bytes_eq a (address x))) [
    | inl hit ↦
        let rest : matches a xs ≡ [] = ground arith in absurd (matches_nonempty xs i g h rest)
    | inr miss ↦ rw miss (matches-set_self xs i e' g h (ground arith) h')
  ]

module _ (p : Platform) (doc : Documented p) (a : Bytes) where
  constant_time_eq-eq : (b : Bytes) → p.constant_time_eq a b ≡ bytes_eq a b
  constant_time_eq-eq b = ground (arith, doc.constant_time_eq_iff a b, bytes_eq_iff a b)

  pub find_loop_none :
      (idx m : ℕ) (es : List StoredEntry) → matches a es ≡ [] → find_loop p a idx m es ≡ m
  unfolding find_loop
  find_loop_none idx m [] h = refl
  find_loop_none idx m (e ∷ es) h = elim (Bool-cases (bytes_eq a (address e))) [
    | inl hit ↦ absurd (ground arith)
    | inr miss ↦
        rw (constant_time_eq-eq (address e), miss, mul-zero (idx + 1), bit_or-zero m)
          (find_loop_none (idx + 1) m es (ground arith))
  ]

  pub find_loop_one :
      (idx : ℕ) (es : List StoredEntry) (e : StoredEntry)
      → matches a es ≡ e ∷ []
      → (i : ℕ) × (get_elem? es i ≡ some e)
        × (address e ≡ a)
        × (find_loop p a idx 0 es ≡ idx + i + 1)
  unfolding find_loop
  find_loop_one idx [] e h = absurd cc
  find_loop_one idx (x ∷ xs) e h = elim (Bool-cases (bytes_eq a (address x))) [
    | inl hit ↦
        let same : x ≡ e = ground arith in
        let here : a ≡ address x = (bytes_eq_iff a (address x)).0 hit in
        (
          0,
          ap some same,
          ap address (sym same) ∙ sym here,
          rw (constant_time_eq-eq (address x), hit, mul-one (idx + 1), zero-bit_or (idx + 1))
              (find_loop_none (idx + 1) (idx + 1) xs (ground arith) ∙ omega arith),
        )
    | inr miss ↦
        let (i, g, h', f) = find_loop_one (idx + 1) xs e (ground arith) in
        (
          suc i,
          g,
          h',
          rw (constant_time_eq-eq (address x), miss, mul-zero (idx + 1), bit_or-zero 0)
              (f ∙ omega arith),
        )
  ]
