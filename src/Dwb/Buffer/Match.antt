-- ===== src/Dwb/Buffer/Match.antt =====
-- What `recipient_match` finds.
use native.Mathlib.Nat.{mul-zero, mul-one}
use snip20_reference_impl.Common.{
  ℕ, zero, suc, ◌+◌, ◌≡◌, ◌≢◌, refl, ap, sym, ◌∙◌, true, false, inl, inr, some, some-injective,
  List, [], ◌∷◌, arith, get_elem?, bit_or-zero, zero-bit_or, Bool-cases,
}
use snip20_reference_impl.Common.Bytes.{Bytes}
use snip20_reference_impl.Platform.{Platform, Documented}
use snip20_reference_impl.Dwb.Entry.{DwbEntry, recipient}
use snip20_reference_impl.Dwb.Buffer.{match_loop, recipient_match}

module _ (p : Platform) (doc : Documented p) (a : Bytes) where
  eq_false : (b : Bytes) → b ≢ a → p.constant_time_eq a b ≡ false
  eq_false b ne = elim (Bool-cases (p.constant_time_eq a b)) [
    | inl e ↦ absurd (ne (sym ((doc.constant_time_eq_iff a b).0 e)))
    | inr e ↦ e
  ]

  eq_true : (b : Bytes) → b ≡ a → p.constant_time_eq a b ≡ true
  eq_true b e = (doc.constant_time_eq_iff a b).1 (sym e)

  -- No entry of `es` is the recipient's.
  abbrev pub Absent : List DwbEntry → Type 0
  Absent es = (j : ℕ) (e : DwbEntry) → get_elem? es j ≡ some e → recipient e ≢ a

  -- The entry at `i` is the recipient's, and no other one is.
  abbrev pub OnlyAt : List DwbEntry → ℕ → Type 0
  OnlyAt es i =
      ((e : DwbEntry) × (get_elem? es i ≡ some e) × (recipient e ≡ a))
      × ((j : ℕ) (e : DwbEntry) → get_elem? es j ≡ some e → recipient e ≡ a → j ≡ i)

  loop-Absent : (idx m : ℕ) (es : List DwbEntry) → Absent es → match_loop p a idx m es ≡ m
  unfolding match_loop
  loop-Absent idx m [] h = refl
  loop-Absent idx m (e ∷ es) h =
      rw (eq_false (recipient e) (h 0 e refl), mul-zero idx, bit_or-zero m)
        (loop-Absent (idx + 1) m es (λ j e' q. h (suc j) e' q))

  loop_found : (idx i : ℕ) (es : List DwbEntry) → OnlyAt es i → match_loop p a idx 0 es ≡ idx + i
  unfolding match_loop
  loop_found idx i [] ((e', q, r), only) = cc
  loop_found idx zero (e ∷ es) ((e', q, r), only) =
      let here : recipient e ≡ a = ap recipient (some-injective e e' q) ∙ r in
      rw (eq_true (recipient e) here, mul-one idx, zero-bit_or idx)
        (loop-Absent (idx + 1) idx es (λ j x u v. absurd (omega (arith, only (suc j) x u v)))
          ∙ omega arith)
  loop_found idx (suc i) (e ∷ es) ((e', q, r), only) =
      let other : recipient e ≢ a = λ v. absurd (omega (arith, only 0 e refl v)) in
      rw (eq_false (recipient e) other, mul-zero idx, bit_or-zero 0)
        (loop_found (idx + 1) i es ((e', q, r), λ j x u v. omega (arith, only (suc j) x u v))
          ∙ omega arith)

  -- The loop over the entries behind the dummy gives the position of the only one that is the
  -- recipient's, and the dummy's position 0 if none is.
  pub recipient_match_exact :
      (dummy : DwbEntry) (es : List DwbEntry)
      → (Absent es → recipient_match p (dummy ∷ es) a ≡ 0)
        × ((i : ℕ) → OnlyAt es i → recipient_match p (dummy ∷ es) a ≡ suc i)
  unfolding recipient_match
  recipient_match_exact dummy es = (loop-Absent 1 0 es, λ i h. loop_found 1 i es h ∙ omega arith)
