-- ===== src/Execute/Supply/Raised.antt =====
-- What depositing and minting do to the supply.
use snip20_reference_impl.Common.{
  ℕ, ◌+◌, ◌≤◌, String, ◌≡◌, ◌∙◌, refl, Option, some, List, [], ◌∷◌, inl, inr, arith, ap, leb,
  Bool-cases, Option-cases,
}
use snip20_reference_impl.Outcome.{ok}
use snip20_reference_impl.Word.{u128_max, saturating_add}
use snip20_reference_impl.Platform.{Platform}
use snip20_reference_impl.TxHistory.{Coin}
use snip20_reference_impl.State.{Config, M, ◌>>=◌, lift, load, modify}
use snip20_reference_impl.State.Frame.{Keeps, rules, frame, pure-Keeps}
use snip20_reference_impl.State.Minters.{load_minters, contains}
use snip20_reference_impl.State.Supply.{safe_add}
use snip20_reference_impl.Execute.Types.{Env, MessageInfo, Notification}
use snip20_reference_impl.Execute.Frame.{perform_deposit-Keeps, try_mint_impl-Keeps}
use snip20_reference_impl.Execute.Deposit.{sum_funds, try_deposit}
use snip20_reference_impl.Execute.MintBurn.{
  MintAction, may_mint, try_mint, batch_mint_loop, try_batch_mint,
}
use snip20_reference_impl.Execute.Supply.{
  Changes, Returns, Updated, Keeps-supply, after-Changes, lift-Changes, bind-Returns, pure-Returns,
  loop-Changes,
}

-- As much more as the word holds.
abbrev pub More : ℕ → ℕ → ℕ → Type 0
More amount supply supply' = supply' ≡ saturating_add u128_max supply amount

raise-Changes :
    (amount total : ℕ) {A : Type 0} {rest : ℕ → Unit {0} → M A}
    → amount ≡ total
    → ((t : ℕ) (u : Unit {0}) → Keeps rules (rest t u))
    → Changes (Updated (More total)) (
        load (λ s. s.total_supply) >>= λ supply.
        modify (λ s. record s { total_supply = some ((safe_add supply amount).0) }) >>= rest supply)
unfolding safe_add
raise-Changes amount total {rest = rest} e k = record {
  changed = λ s a s' q. elim (Option-cases s.total_supply) [
    | inl missing ↦ absurd cc
    | inr (supply, h) ↦
        let raised = saturating_add u128_max supply amount in
        let last : rest supply tt (record s { total_supply = some raised }) ≡ ok (a, s') = cc in
        (supply, raised, h, Keeps-supply (k supply tt) last, ap (saturating_add u128_max supply) e)
  ];
}

-- The coins that come with a message.
abbrev pub total_funds : List Coin → ℕ
total_funds [] = 0
total_funds (coin ∷ funds) = coin.amount + total_funds funds

sum_funds-eq :
    (denoms : List String) (acc : ℕ) (funds : List Coin) {n : ℕ}
    → sum_funds denoms acc funds ≡ ok n
    → n ≡ acc + total_funds funds
unfolding sum_funds
sum_funds-eq denoms acc [] q = ground arith
sum_funds-eq denoms acc (coin ∷ funds) {n} q = elim (Bool-cases (contains denoms coin.denom)) [
  | inr unsupported ↦ absurd (ground arith)
  | inl supported ↦ elim (Bool-cases (leb (acc + coin.amount) u128_max)) [
    | inr past ↦ absurd (ground arith)
    | inl fits ↦
        let rest : sum_funds denoms (acc + coin.amount) funds ≡ ok n = ground arith in
        omega (arith, sum_funds-eq denoms (acc + coin.amount) funds rest)
  ]
]

funds-Changes :
    {R : Option ℕ → Option ℕ → Type 0} {A : Type 0} (f : ℕ → M A) (denoms : List String)
    (funds : List Coin)
    → ((amount : ℕ) → amount ≡ total_funds funds → Changes R (f amount))
    → Changes R (lift (sum_funds denoms 0 funds) >>= f)
funds-Changes f denoms funds k =
    lift-Changes f (sum_funds denoms 0 funds)
      (λ amount q. k amount (omega (arith, sum_funds-eq denoms 0 funds q)))

-- What a batch mints in all.
abbrev pub total_minted : List MintAction → ℕ
total_minted [] = 0
total_minted (action ∷ actions) = action.amount + total_minted actions

-- The supply after each of the actions.
abbrev pub raise_all : ℕ → List MintAction → ℕ
raise_all supply [] = supply
raise_all supply (action ∷ actions) =
    raise_all (saturating_add u128_max supply action.amount) actions

pub raise_all-eq :
    (supply : ℕ) (actions : List MintAction)
    → supply ≤ u128_max
    → raise_all supply actions ≡ saturating_add u128_max supply (total_minted actions)
raise_all-eq supply [] h = ground arith
raise_all-eq supply (action ∷ actions) h =
    raise_all-eq (saturating_add u128_max supply action.amount) actions (ground arith)
    ∙ ground arith

module _ (p : Platform) where
  pub try_deposit-Changes :
      (env : Env) (info : MessageInfo)
      → Changes (Updated (More (total_funds info.funds))) (try_deposit p env info)
  unfolding try_deposit
  try_deposit-Changes env info =
      search (frame, after-Changes, funds-Changes, raise-Changes, perform_deposit-Keeps) depth 20

  load_minters-Keeps : Keeps rules load_minters
  unfolding load_minters
  load_minters-Keeps = record {
    kept = λ s a s' q. elim (Option-cases s.minters) [
      | inl missing ↦ absurd cc
      | inr (minters, h) ↦ cc
    ];
  }

  pub may_mint-Keeps : (info : MessageInfo) → Keeps rules (may_mint p info)
  unfolding may_mint
  may_mint-Keeps info = search (frame, load_minters-Keeps) depth 15

  pub try_mint-Changes :
      (env : Env) (info : MessageInfo) (recipient : String) (amount : ℕ) (memo : Option String)
      → Changes (Updated (More amount)) (try_mint p env info recipient amount memo)
  unfolding try_mint
  try_mint-Changes env info recipient amount memo =
      search (frame, after-Changes, raise-Changes, may_mint-Keeps, try_mint_impl-Keeps) depth 15

  pub batch_mint_loop-Keeps :
      (env : Env) (info : MessageInfo) (c : Config) (actions : List MintAction) (supply : ℕ)
      (sent : List Notification)
      → Keeps rules (batch_mint_loop p env info c actions supply sent)
  unfolding batch_mint_loop
  batch_mint_loop-Keeps env info c [] supply sent = pure-Keeps (supply, sent)
  batch_mint_loop-Keeps env info c (action ∷ actions) supply sent =
      let rest = batch_mint_loop-Keeps env info c actions in
      search (frame, try_mint_impl-Keeps, rest) depth 8

  batch_mint_loop-Returns :
      (env : Env) (info : MessageInfo) (c : Config) (actions : List MintAction) (supply : ℕ)
      (sent : List Notification)
      → Returns
          (λ (r : ℕ × List Notification). r.0 ≡ raise_all supply actions)
          (batch_mint_loop p env info c actions supply sent)
  unfolding batch_mint_loop safe_add
  batch_mint_loop-Returns env info c [] supply sent = pure-Returns (supply, sent) refl
  batch_mint_loop-Returns env info c (action ∷ actions) supply sent =
      let rest =
        batch_mint_loop-Returns env info c actions (saturating_add u128_max supply action.amount) in
      search (bind-Returns, rest) depth 8

  pub try_batch_mint-Changes :
      (env : Env) (info : MessageInfo) (actions : List MintAction)
      → Changes
          (Updated (λ supply supply'. supply' ≡ raise_all supply actions))
          (try_batch_mint p env info actions)
  unfolding try_batch_mint
  try_batch_mint-Changes env info actions =
      search
        (
          frame, after-Changes, loop-Changes, may_mint-Keeps, batch_mint_loop-Keeps,
          batch_mint_loop-Returns,
        )
        depth 15
