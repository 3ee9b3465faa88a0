-- ===== src/Execute/Authority.antt =====
-- When tokens may be created or destroyed.
use snip20_reference_impl.Common.{
  ℕ, String, ◌≡◌, ◌⊎◌, inl, inr, Bool, true, Option, some, List, arith, Bool-cases, Option-cases,
}
use snip20_reference_impl.Outcome.{ok, Result-cases}
use snip20_reference_impl.Platform.{Platform}
use snip20_reference_impl.State.{Storage, Config}
use snip20_reference_impl.State.Minters.{contains, load_minters}
use snip20_reference_impl.Execute.Types.{Env, MessageInfo, Response}
use snip20_reference_impl.Execute.Deposit.{try_deposit, try_redeem}
use snip20_reference_impl.Execute.MintBurn.{
  MintAction, BurnFromAction, may_mint, try_mint, try_batch_mint, try_burn, try_burn_from,
  try_batch_burn_from,
}
use snip20_reference_impl.Execute.Supply.History.{
  Destroys, redeem, burn, burn_from, batch_burn_from,
}

-- The configuration in storage has the switch on.
abbrev pub Enabled : (Config → Bool) → Storage → Type 0
Enabled switch s = (c : Config) × (s.config ≡ some c) × (switch c ≡ true)

abbrev pub IsMinter : String → Storage → Type 0
IsMinter account s =
    (minters : List String) × (s.minters ≡ some minters) × (contains minters account ≡ true)

module _ (p : Platform) (info : MessageInfo) (s : Storage) where
  may_mint-checks :
      (c : Config) (t : Storage)
      → may_mint p info s ≡ ok (c, t)
      → Enabled (λ c. c.mint_is_enabled) s × IsMinter info.sender s
  unfolding may_mint load_minters
  may_mint-checks c' t q = elim (Option-cases s.config) [
    | inl missing ↦ absurd cc
    | inr (c, hc) ↦ elim (Bool-cases c.mint_is_enabled) [
      | inr off ↦ absurd (ground arith)
      | inl on ↦ elim (Option-cases s.minters) [
        | inl missing ↦ absurd (ground arith)
        | inr (minters, hm) ↦ elim (Bool-cases (contains minters info.sender)) [
          | inr other ↦ absurd (ground arith)
          | inl is ↦ ((c, hc, on), (minters, hm, is))
        ]
      ]
    ]
  ]

module _ (p : Platform) (env : Env) (info : MessageInfo) (s s' : Storage) (r : Response) where
  deposit-Enabled : try_deposit p env info s ≡ ok (r, s') → Enabled (λ c. c.deposit_is_enabled) s
  unfolding try_deposit
  deposit-Enabled q = elim (Option-cases s.config) [
    | inl missing ↦ absurd cc
    | inr (c, hc) ↦ elim (Bool-cases c.deposit_is_enabled) [
      | inl on ↦ (c, hc, on)
      | inr off ↦ absurd (ground arith)
    ]
  ]

  redeem-Enabled :
      (amount : ℕ) (denom : Option String)
      → try_redeem p env info amount denom s ≡ ok (r, s')
      → Enabled (λ c. c.redeem_is_enabled) s
  unfolding try_redeem
  redeem-Enabled amount denom q = elim (Option-cases s.config) [
    | inl missing ↦ absurd cc
    | inr (c, hc) ↦ elim (Bool-cases c.redeem_is_enabled) [
      | inl on ↦ (c, hc, on)
      | inr off ↦ absurd (ground arith)
    ]
  ]

  mint_checks :
      (recipient : String) (amount : ℕ) (memo : Option String)
      → try_mint p env info recipient amount memo s ≡ ok (r, s')
      → Enabled (λ c. c.mint_is_enabled) s × IsMinter info.sender s
  unfolding try_mint
  mint_checks recipient amount memo q = elim (Result-cases (may_mint p info s)) [
    | inl ((c, t), e) ↦ may_mint-checks p info s c t e
    | inr (e, bad) ↦ absurd (ground arith)
  ]

  batch_mint_checks :
      (actions : List MintAction)
      → try_batch_mint p env info actions s ≡ ok (r, s')
      → Enabled (λ c. c.mint_is_enabled) s × IsMinter info.sender s
  unfolding try_batch_mint
  batch_mint_checks actions q = elim (Result-cases (may_mint p info s)) [
    | inl ((c, t), e) ↦ may_mint-checks p info s c t e
    | inr (e, bad) ↦ absurd (ground arith)
  ]

  burn-Enabled :
      (amount : ℕ) (memo : Option String)
      → try_burn p env info amount memo s ≡ ok (r, s')
      → Enabled (λ c. c.burn_is_enabled) s
  unfolding try_burn
  burn-Enabled amount memo q = elim (Option-cases s.config) [
    | inl missing ↦ absurd (ground arith)
    | inr (c, hc) ↦ elim (Bool-cases c.burn_is_enabled) [
      | inl on ↦ (c, hc, on)
      | inr off ↦ absurd (ground arith)
    ]
  ]

  burn_from-Enabled :
      (owner : String) (amount : ℕ) (memo : Option String)
      → try_burn_from p env info owner amount memo s ≡ ok (r, s')
      → Enabled (λ c. c.burn_is_enabled) s
  unfolding try_burn_from
  burn_from-Enabled owner amount memo q = elim (Option-cases s.config) [
    | inl missing ↦ absurd (ground arith)
    | inr (c, hc) ↦ elim (Bool-cases c.burn_is_enabled) [
      | inl on ↦ (c, hc, on)
      | inr off ↦ absurd (ground arith)
    ]
  ]

  batch_burn_from-Enabled :
      (actions : List BurnFromAction)
      → try_batch_burn_from p env info actions s ≡ ok (r, s')
      → Enabled (λ c. c.burn_is_enabled) s
  unfolding try_batch_burn_from
  batch_burn_from-Enabled actions q = elim (Option-cases s.config) [
    | inl missing ↦ absurd (ground arith)
    | inr (c, hc) ↦ elim (Bool-cases c.burn_is_enabled) [
      | inl on ↦ (c, hc, on)
      | inr off ↦ absurd (ground arith)
    ]
  ]

  -- Where a mint succeeds, single or in a batch, minting was enabled and the sender was a minter.
  pub minting-IsMinter :
      (recipient : String) (amount : ℕ) (memo : Option String) (actions : List MintAction)
      → (try_mint p env info recipient amount memo s ≡ ok (r, s'))
        ⊎ (try_batch_mint p env info actions s ≡ ok (r, s'))
      → Enabled (λ c. c.mint_is_enabled) s × IsMinter info.sender s
  minting-IsMinter recipient amount memo actions (inl q) = mint_checks recipient amount memo q
  minting-IsMinter recipient amount memo actions (inr q) = batch_mint_checks actions q

-- The switch of the message.
abbrev pub switch_of :
    {p : Platform} {s s' : Storage} {amount : ℕ} → Destroys p amount s s' → Config → Bool
switch_of (redeem env info denom r q) c = c.redeem_is_enabled
switch_of (burn env info memo r q) c = c.burn_is_enabled
switch_of (burn_from env info owner memo r q) c = c.burn_is_enabled
switch_of (batch_burn_from env info actions r q) c = c.burn_is_enabled

-- Where a redemption succeeds, redeeming was enabled, and where a burn does, of one's own or from an
-- allowance, single or in a batch, burning was.
pub Destroys-Enabled :
    (p : Platform) {s s' : Storage} {amount : ℕ} (d : Destroys p amount s s')
    → Enabled (switch_of d) s
Destroys-Enabled p {s} {s'} {amount} (redeem env info denom r q) =
    redeem-Enabled p env info s s' r amount denom q
Destroys-Enabled p {s} {s'} {amount} (burn env info memo r q) =
    burn-Enabled p env info s s' r amount memo q
Destroys-Enabled p {s} {s'} {amount} (burn_from env info owner memo r q) =
    burn_from-Enabled p env info s s' r owner amount memo q
Destroys-Enabled p {s} {s'} (batch_burn_from env info actions r q) =
    batch_burn_from-Enabled p env info s s' r actions q
