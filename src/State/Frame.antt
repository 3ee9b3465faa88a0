-- ===== src/State/Frame.antt =====
-- What an action leaves as it is.
use snip20_reference_impl.Common.{
  ℕ, String, List, ◌≡◌, ◌∙◌, Bool, true, false, Option, inl, inr, Option-cases,
}
use snip20_reference_impl.Outcome.{Error, Result, ok, err, Result-cases}
use snip20_reference_impl.State.Monad.{
  Storage, Config, ContractStatusLevel, M, ◌>>=◌, pure, raise, lift, reads, gets, load, modify,
  require,
}

-- Wherever the action succeeds, the view of the storage after it is the one before.
pub record Keeps {V : Type 0} (view : Storage → V) {A : Type 0} (m : M A) : Type 0 where
  pub kept : (s : Storage) (a : A) (s' : Storage) → m s ≡ ok (a, s') → view s' ≡ view s

pub bind-Keeps :
    {V : Type 0} {view : Storage → V} {A B : Type 0} {m : M A} {f : A → M B}
    → Keeps view m
    → ((a : A) → Keeps view (f a))
    → Keeps view (m >>= f)
bind-Keeps {m = m} {f = f} h k = record {
  kept = λ s b s' q. elim (Result-cases (m s)) [
    | inl ((a, s1), e) ↦
        let rest : f a s1 ≡ ok (b, s') = cc in (k a).kept s1 b s' rest ∙ h.kept s a s1 e
    | inr (e, bad) ↦ absurd cc
  ];
}

pub lift-Keeps : {V A : Type 0} {view : Storage → V} (r : Result A) → Keeps view (lift r)
lift-Keeps (ok a) = record { kept = λ s b s' q. cc }
lift-Keeps (err e) = record { kept = λ s b s' q. cc }

module _ {V A : Type 0} {view : Storage → V} where
  pub pure-Keeps : (a : A) → Keeps view (pure a)
  pure-Keeps a = record { kept = λ s b s' q. cc }

  pub raise-Keeps : (e : Error) → Keeps view {A = A} (raise e)
  raise-Keeps e = record { kept = λ s b s' q. cc }

  pub reads-Keeps : (f : Storage → Result A) → Keeps view (reads f)
  reads-Keeps f = record { kept = λ s b s' q. (lift-Keeps {view = view} (f s)).kept s b s' q }

  pub gets-Keeps : (f : Storage → A) → Keeps view (gets f)
  gets-Keeps f = record { kept = λ s b s' q. cc }

  pub load-Keeps : (f : Storage → Option A) → Keeps view (load f)
  load-Keeps f = record {
    kept = λ s b s' q. elim (Option-cases (f s)) [ inl e ↦ absurd cc | inr (a, e) ↦ cc ];
  }

module _ {V : Type 0} {view : Storage → V} where
  pub require-Keeps : (t : Bool) (e : Error) → Keeps view (require t e)
  require-Keeps true e = record { kept = λ s b s' q. cc }
  require-Keeps false e = record { kept = λ s b s' q. cc }

  pub modify-Keeps :
      (f : Storage → Storage) → ((s : Storage) → view (f s) ≡ view s) → Keeps view (modify f)
  modify-Keeps f h = record { kept = λ s b s' q. let same : f s ≡ s' = cc in rw (← same) (h s) }

pub ruleset frame = (
  bind-Keeps, lift-Keeps, pure-Keeps, raise-Keeps, reads-Keeps, gets-Keeps, load-Keeps,
  require-Keeps, modify-Keeps,
)

-- The supply and the rules of the token.
pub record Rules : Type 0 where
  pub config : Option Config
  pub total_supply : Option ℕ
  pub contract_status : Option ContractStatusLevel
  pub minters : Option (List String)
  pub notifications_enabled : Option Bool

abbrev pub rules : Storage → Rules
rules s = record {
  config = s.config;
  total_supply = s.total_supply;
  contract_status = s.contract_status;
  minters = s.minters;
  notifications_enabled = s.notifications_enabled;
}
