-- ===== src/Execute/Supply/Lowered.antt =====
-- What redeeming and burning do to the supply.
use snip20_reference_impl.Common.{
  ℕ, ◌+◌, ◌-◌, ◌≤◌, String, ◌≡◌, refl, Option, some, List, [], ◌∷◌, inl, inr, arith, leb,
  Bool-cases, Option-cases,
}
use snip20_reference_impl.Common.Bytes.{Bytes}
use snip20_reference_impl.Outcome.{Error, ok, or_err}
use snip20_reference_impl.Word.{checked_sub}
use snip20_reference_impl.Platform.{Platform}
use snip20_reference_impl.State.{Config, M, ◌>>=◌, lift, load, modify}
use snip20_reference_impl.State.Frame.{Keeps, rules, frame, pure-Keeps}
use snip20_reference_impl.Dwb.Frame.{settle_sender_or_owner_account-Keeps}
use snip20_reference_impl.Execute.Types.{Env, MessageInfo, Notification}
use snip20_reference_impl.Execute.Frame.{
  store_redeem_action-Keeps, store_burn_action-Keeps, use_allowance-Keeps, burn_for-Keeps,
}
use snip20_reference_impl.Execute.Deposit.{try_redeem}
use snip20_reference_impl.Execute.MintBurn.{
  BurnFromAction, burn_supply, try_burn, try_burn_from, batch_burn_loop, try_batch_burn_from,
}
use snip20_reference_impl.Execute.Supply.{
  Changes, Returns, Updated, Keeps-supply, after-Changes, before-Changes, bind-Returns,
  pure-Returns, checked_sub-Returns, loop-Changes,
}

-- The amount was there, and is gone.
abbrev pub Less : ℕ → ℕ → ℕ → Type 0
Less amount supply supply' = (amount ≤ supply) × (supply' ≡ supply - amount)

abbrev pub Lowered : ℕ → Option ℕ → Option ℕ → Type 0
Lowered amount = Updated (Less amount)

-- Lowering the supply, and what follows.
lower-Changes :
    (amount : ℕ) (e : Error) {A : Type 0} {rest : Unit {0} → M A}
    → ((u : Unit {0}) → Keeps rules (rest u))
    → Changes (Lowered amount) (
        load (λ s. s.total_supply) >>= λ supply.
        lift (or_err (checked_sub supply amount) e) >>= λ lowered.
        modify (λ s. record s { total_supply = some lowered }) >>= rest)
lower-Changes amount e {rest = rest} k = record {
  changed = λ s a s' q. elim (Option-cases s.total_supply) [
    | inl missing ↦ absurd cc
    | inr (supply, h) ↦ elim (Bool-cases (leb amount supply)) [
      | inl fits ↦
          let t = record s { total_supply = some (supply - amount) } in
          let last : rest tt t ≡ ok (a, s') = ground arith in
          (supply, supply - amount, h, Keeps-supply (k tt) last, (ground arith, refl))
      | inr short ↦ absurd (ground arith)
    ]
  ];
}

-- What a batch burns in all.
abbrev pub total_burnt : List BurnFromAction → ℕ
total_burnt [] = 0
total_burnt (action ∷ actions) = action.amount + total_burnt actions

module _ (p : Platform) where
  burn_supply-Changes : (amount : ℕ) → Changes (Lowered amount) (burn_supply p amount)
  unfolding burn_supply
  burn_supply-Changes amount = record {
    changed = λ s u s' q. elim (Option-cases s.total_supply) [
      | inl missing ↦ absurd cc
      | inr (supply, h) ↦ elim (Bool-cases (leb amount supply)) [
        | inl fits ↦ (supply, supply - amount, h, ground arith, (ground arith, refl))
        | inr short ↦ absurd (ground arith)
      ]
    ];
  }

  pub try_redeem-Changes :
      (env : Env) (info : MessageInfo) (amount : ℕ) (denom : Option String)
      → Changes (Lowered amount) (try_redeem p env info amount denom)
  unfolding try_redeem
  try_redeem-Changes env info amount denom =
      search
        (
          frame, after-Changes, lower-Changes, store_redeem_action-Keeps,
          settle_sender_or_owner_account-Keeps,
        )
        depth 20

  pub try_burn-Changes :
      (env : Env) (info : MessageInfo) (amount : ℕ) (memo : Option String)
      → Changes (Lowered amount) (try_burn p env info amount memo)
  unfolding try_burn
  try_burn-Changes env info amount memo =
      search
        (
          frame, after-Changes, before-Changes, burn_supply-Changes, store_burn_action-Keeps,
          settle_sender_or_owner_account-Keeps,
        )
        depth 20

  pub try_burn_from-Changes :
      (env : Env) (info : MessageInfo) (owner : String) (amount : ℕ) (memo : Option String)
      → Changes (Lowered amount) (try_burn_from p env info owner amount memo)
  unfolding try_burn_from
  try_burn_from-Changes env info owner amount memo =
      search
        (
          frame, after-Changes, before-Changes, burn_supply-Changes, use_allowance-Keeps,
          burn_for-Keeps,
        )
        depth 20

  pub batch_burn_loop-Keeps :
      (env : Env) (info : MessageInfo) (c : Config) (spender : Bytes)
      (actions : List BurnFromAction) (supply : ℕ) (sent : List Notification)
      → Keeps rules (batch_burn_loop p env info c spender actions supply sent)
  unfolding batch_burn_loop
  batch_burn_loop-Keeps env info c spender [] supply sent = pure-Keeps (supply, sent)
  batch_burn_loop-Keeps env info c spender (action ∷ actions) supply sent =
      let rest = batch_burn_loop-Keeps env info c spender actions in
      search (frame, use_allowance-Keeps, burn_for-Keeps, rest) depth 10

  batch_burn_loop-Returns :
      (env : Env) (info : MessageInfo) (c : Config) (spender : Bytes)
      (actions : List BurnFromAction) (burnt total start supply : ℕ) (sent : List Notification)
      → Less burnt start supply
      → total ≡ burnt + total_burnt actions
      → Returns
          (λ (r : ℕ × List Notification). Less total start r.0)
          (batch_burn_loop p env info c spender actions supply sent)
  unfolding batch_burn_loop
  batch_burn_loop-Returns env info c spender [] burnt total start supply sent (fits, e) sum =
      pure-Returns (supply, sent) (omega arith, omega arith)
  batch_burn_loop-Returns env info c spender (action ∷ actions) burnt total start supply sent
        (fits, e) sum =
      let rest : (sent' : List Notification)
          → action.amount ≤ supply
          → Returns (λ (r : ℕ × List Notification). Less total start r.0)
              (batch_burn_loop p env info c spender actions (supply - action.amount) sent') =
        λ sent' room.
          batch_burn_loop-Returns env info c spender actions (burnt + action.amount) total start
            (supply - action.amount) sent' (omega arith, omega arith) (omega arith) in
      search (bind-Returns, checked_sub-Returns, rest) depth 12

  pub try_batch_burn_from-Changes :
      (env : Env) (info : MessageInfo) (actions : List BurnFromAction)
      → Changes (Lowered (total_burnt actions)) (try_batch_burn_from p env info actions)
  unfolding try_batch_burn_from
  try_batch_burn_from-Changes env info actions =
      let returns : (c : Config) (spender : Bytes) (supply : ℕ)
          → Returns (λ (r : ℕ × List Notification). Less (total_burnt actions) supply r.0)
              (batch_burn_loop p env info c spender actions supply []) =
        λ c spender supply.
          batch_burn_loop-Returns env info c spender actions 0 (total_burnt actions) supply supply
            [] (omega arith, omega arith) (omega arith) in
      search (frame, after-Changes, loop-Changes, batch_burn_loop-Keeps, returns) depth 15
