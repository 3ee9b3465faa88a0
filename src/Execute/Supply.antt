-- ===== src/Execute/Supply.antt =====
-- What an action does to the supply: rules to follow it through the messages.
pub mod Lowered
pub mod Raised
pub mod History
use snip20_reference_impl.Common.{
  ℕ, ◌+◌, ◌-◌, ◌≤◌, String, ◌≡◌, ◌∙◌, refl, true, false, Bool, Option, none, some, List, [], ◌∷◌,
  inl, inr, arith, ap, leb, Bool-cases, Option-cases,
}
use snip20_reference_impl.Word.{checked_sub}
use snip20_reference_impl.Outcome.{Error, Result, ok, err, or_err, Result-cases}
use snip20_reference_impl.State.{Storage, M, ◌>>=◌, ◌>>◌, pure, lift, load, modify}
use snip20_reference_impl.State.Frame.{Rules, rules, Keeps, frame}

-- Wherever the action succeeds, the supplies before and after it are related.
pub record Changes (R : Option ℕ → Option ℕ → Type 0) {A : Type 0} (m : M A) : Type 0 where
  pub changed :
      (s : Storage) (a : A) (s' : Storage) → m s ≡ ok (a, s') → R s.total_supply s'.total_supply

pub Keeps-supply :
    {A : Type 0} {m : M A} {s s' : Storage} {a : A}
    → Keeps rules m
    → m s ≡ ok (a, s')
    → s'.total_supply ≡ s.total_supply
Keeps-supply h q = ap (λ (r : Rules). r.total_supply) (h.kept _ _ _ q)

module _ {A B : Type 0} {R : Option ℕ → Option ℕ → Type 0} {m : M A} {f : A → M B} where
  pub after-Changes : Keeps rules m → ((a : A) → Changes R (f a)) → Changes R (m >>= f)
  after-Changes h k = record {
    changed = λ s b s' q. elim (Result-cases (m s)) [
      | inl ((a, t), e) ↦
          let rest : f a t ≡ ok (b, s') = cc in rw (← Keeps-supply h e) ((k a).changed t b s' rest)
      | inr (e, bad) ↦ absurd cc
    ];
  }

  pub before-Changes : Changes R m → ((a : A) → Keeps rules (f a)) → Changes R (m >>= f)
  before-Changes h k = record {
    changed = λ s b s' q. elim (Result-cases (m s)) [
      | inl ((a, t), e) ↦
          let rest : f a t ≡ ok (b, s') = cc in rw (Keeps-supply (k a) rest) (h.changed s a t e)
      | inr (e, bad) ↦ absurd cc
    ];
  }

-- What follows a result may use that it is the result.
pub lift-Changes :
    {A B : Type 0} {R : Option ℕ → Option ℕ → Type 0} (f : A → M B) (r : Result A)
    → ((a : A) → r ≡ ok a → Changes R (f a))
    → Changes R (lift r >>= f)
lift-Changes f (ok a) k = record { changed = λ s b s' q. (k a refl).changed s b s' q }
lift-Changes f (err e) k = record { changed = λ s b s' q. absurd cc }

-- Whatever an action that succeeds returns has the property.
pub record Returns {A : Type 0} (Q : A → Type 0) (m : M A) : Type 0 where
  pub returned : (s : Storage) (a : A) (s' : Storage) → m s ≡ ok (a, s') → Q a

module _ {A B : Type 0} {Q : B → Type 0} where
  pub bind-Returns : (m : M A) {f : A → M B} → ((a : A) → Returns Q (f a)) → Returns Q (m >>= f)
  bind-Returns m {f} k = record {
    returned = λ s b s' q. elim (Result-cases (m s)) [
      | inl ((a, t), e) ↦ let rest : f a t ≡ ok (b, s') = cc in (k a).returned t b s' rest
      | inr (e, bad) ↦ absurd cc
    ];
  }

pub pure-Returns : {B : Type 0} {Q : B → Type 0} (b : B) → Q b → Returns Q (pure b)
pure-Returns {Q = Q} b h = record { returned = λ s a s' q. let same : b ≡ a = cc in rw (← same) h }

-- A checked subtraction that succeeds.
pub checked_sub-Returns :
    {B : Type 0} {Q : B → Type 0} (f : ℕ → M B) (a b : ℕ) (e : Error)
    → (b ≤ a → Returns Q (f (a - b)))
    → Returns Q (lift (or_err (checked_sub a b) e) >>= f)
checked_sub-Returns f a b e k = record {
  returned = λ s r s' q. elim (Bool-cases (leb b a)) [
    | inl fits ↦
        let rest : f (a - b) s ≡ ok (r, s') = ground arith in
        (k (ground arith)).returned s r s' rest
    | inr short ↦ absurd (ground arith)
  ];
}

-- How the supply is written after a loop that was given it and returns the new one.
abbrev pub Updated : (ℕ → ℕ → Type 0) → Option ℕ → Option ℕ → Type 0
Updated P before after =
    (supply : ℕ) × (supply' : ℕ) × (before ≡ some supply)
    × (after ≡ some supply')
    × P supply supply'

pub loop-Changes :
    {X A : Type 0} (P : ℕ → ℕ → Type 0) {loop : ℕ → M (ℕ × X)} {rest : ℕ × X → Unit {0} → M A}
    → ((t : ℕ) → Keeps rules (loop t))
    → ((t : ℕ) → Returns (λ (r : ℕ × X). P t r.0) (loop t))
    → ((r : ℕ × X) (u : Unit {0}) → Keeps rules (rest r u))
    → Changes (Updated P) (
        load (λ s. s.total_supply) >>= λ supply.
        loop supply >>= λ r. modify (λ s. record s { total_supply = some (r.0) }) >>= rest r)
loop-Changes P {loop = loop} {rest = rest} keeps returns k = record {
  changed = λ s a s' q. elim (Option-cases s.total_supply) [
    | inl missing ↦ absurd cc
    | inr (supply, h) ↦ elim (Result-cases (loop supply s)) [
      | inl ((r, t), e) ↦
          let last : rest r tt (record t { total_supply = some (r.0) }) ≡ ok (a, s') = cc in
          (supply, r.0, h, Keeps-supply (k r tt) last, (returns supply).returned s r t e)
      | inr (e, bad) ↦ absurd cc
    ]
  ];
}
