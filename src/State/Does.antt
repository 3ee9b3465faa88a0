-- ===== src/State/Does.antt =====
-- What an action keeps, what it returns, and that it has the fuel that it needs.
use snip20_reference_impl.Common.{◌≡◌, ◌≢◌, refl, ◌∙◌, inl, inr}
use snip20_reference_impl.Outcome.{Error, Result, ok, err, out_of_fuel, Result-cases}
use snip20_reference_impl.State.{Storage, M, ◌>>=◌, pure, lift, reads, modify}

-- A result with a value of the property, or an error other than a lack of fuel.
abbrev pub Good : {A : Type 0} → (A → Type 0) → Result A → Type 0
Good Q (ok a) = Q a
Good Q (err x) = x ≢ out_of_fuel

-- Wherever the action succeeds it keeps the view and returns a value of the property; it never lacks
-- fuel.
pub record Does {V A : Type 0} (view : Storage → V) (Q : A → Type 0) (m : M A) : Type 0 where
  pub does : (s : Storage) → Good (λ (r : A × Storage). (view r.1 ≡ view s) × Q (r.0)) (m s)

module _ {A B : Type 0} (m : M A) (f : A → M B) {s : Storage} where
  pub bind_ok : {a : A} {t : Storage} → m s ≡ ok (a, t) → (m >>= f) s ≡ f a t
  bind_ok e = cc

  pub bind_err : {x : Error} → m s ≡ err x → (m >>= f) s ≡ err x
  bind_err e = cc

module _ {V A B : Type 0} {view : Storage → V} {Q : B → Type 0} where
  pub bind-Does :
      (P : A → Type 0) {m : M A} {f : A → M B}
      → Does view P m
      → ((a : A) → P a → Does view Q (f a))
      → Does view Q (m >>= f)
  bind-Does P {m} {f} h k = record {
    does = λ s. elim (Result-cases (m s)) [
      | inl ((a, t), e) ↦
          let (kept, pa) = rw e at (h.does s) in
          elim (Result-cases (f a t)) [
            | inl ((b, u), e') ↦
                let (kept', qb) = rw e' at ((k a pa).does t) in
                rw (bind_ok m f e ∙ e') (kept' ∙ kept, qb)
            | inr (x, e') ↦ rw (bind_ok m f e ∙ e') (rw e' at ((k a pa).does t))
          ]
      | inr (x, e) ↦ rw (bind_err m f e) (rw e at (h.does s))
    ];
  }

module _ {V A : Type 0} {view : Storage → V} {Q : A → Type 0} where
  pub lift-Does : (r : Result A) → Good Q r → Does view Q (lift r)
  lift-Does (ok a) h = record { does = λ s. (refl, h) }
  lift-Does (err x) h = record { does = λ s. h }

  pub reads-Does : (f : Storage → Result A) → ((s : Storage) → Good Q (f s)) → Does view Q (reads f)
  reads-Does f h = record { does = λ s. (lift-Does (f s) (h s)).does s }

  pub pure-Does : (a : A) → Q a → Does view Q (pure a)
  pure-Does a h = record { does = λ s. (refl, h) }

pub modify-Does :
    {V : Type 0} {view : Storage → V} (f : Storage → Storage)
    → ((s : Storage) → view (f s) ≡ view s)
    → Does view (λ u. Unit {0}) (modify f)
modify-Does f h = record { does = λ s. (h s, tt) }

pub weaken-Does :
    {V A : Type 0} {view : Storage → V} (P : A → Type 0) {Q : A → Type 0} {m : M A}
    → ((a : A) → P a → Q a)
    → Does view P m
    → Does view Q m
weaken-Does P {m = m} k h = record {
  does = λ s. elim (Result-cases (m s)) [
    | inl ((a, t), e) ↦ let (kept, pa) = rw e at (h.does s) in rw e (kept, k a pa)
    | inr (x, e) ↦ rw e (rw e at (h.does s))
  ];
}
