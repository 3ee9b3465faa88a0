-- ===== src/Execute/MintBurn.antt =====
-- src/execute_mint_burn.rs
use Prim.Native.String.{len}
use snip20_reference_impl.Common.{
  ℕ, String, Bool, true, false, not, Option, none, some, List, [], ◌∷◌, ◌++◌, if◌then◌else◌,
}
use snip20_reference_impl.Common.Bytes.{Bytes, bytes_eq}
use snip20_reference_impl.Outcome.{
  or_err, mint_disabled, not_a_minter, burn_disabled, burn_exceeds_supply,
}
use snip20_reference_impl.Word.{checked_sub}
use snip20_reference_impl.Platform.{Platform}
use snip20_reference_impl.TxHistory.Store.{BlockInfo, store_mint_action, store_burn_action}
use snip20_reference_impl.State.{M, Config, ◌>>=◌, ◌>>◌, pure, lift, load, modify, require}
use snip20_reference_impl.State.Minters.{contains, load_minters}
use snip20_reference_impl.State.Supply.{safe_add}
use snip20_reference_impl.Dwb.Types.{DelayedWriteBuffer}
use snip20_reference_impl.Dwb.Buffer.{add_recipient, settle_sender_or_owner_account}
use snip20_reference_impl.Execute.Allowance.{use_allowance}
use snip20_reference_impl.Execute.Types.{Env, MessageInfo, Response, Notification, done}

-- `memo.as_ref().map(|s| s.len()).unwrap_or_default()`, in bytes
abbrev pub memo_length : Option String → ℕ
memo_length none = 0
memo_length (some memo) = len memo

-- The response of a handler: it names its notifications only where they are enabled.
abbrev pub respond : List Notification → M Response
respond notifications = do
  enabled ← load (λ s. s.notifications_enabled)
  pure (if enabled then record done { notifications = notifications } else done)

-- `batch::MintAction` and `batch::BurnFromAction` of src/batch.rs
pub record MintAction : Type 0 where
  pub recipient : String
  pub amount : ℕ
  pub memo : Option String

pub record BurnFromAction : Type 0 where
  pub owner : String
  pub amount : ℕ
  pub memo : Option String

module _ (p : Platform) where
  -- Another account than the one concerned is settled with nothing spent.
  unfoldable pub settle_other : Bool → DelayedWriteBuffer → Bytes → ℕ → M DelayedWriteBuffer
  settle_other false dwb account tx_id = pure dwb
  settle_other true dwb account tx_id = do
    settled ← settle_sender_or_owner_account p dwb account tx_id 0 false
    pure settled.1

  unfoldable pub perform_mint :
      Bytes → Bytes → ℕ → String → Option String → BlockInfo → M (Unit {0})
  unfolding settle_other
  perform_mint minter to amount denom memo block = do
    tx_id ← store_mint_action minter to amount denom memo block
    dwb ← load (λ s. s.dwb)
    dwb' ← settle_other (not (bytes_eq minter to)) dwb minter tx_id
    dwb'' ← add_recipient p dwb' to tx_id amount
    modify (λ s. record s { dwb = some dwb'' })

  unfoldable pub try_mint_impl :
      String → String → ℕ → String → Option String → BlockInfo → M (Unit {0})
  try_mint_impl minter recipient amount denom memo block = do
    raw_recipient ← lift (p.addr_canonicalize recipient)
    raw_minter ← lift (p.addr_canonicalize minter)
    perform_mint raw_minter raw_recipient amount denom memo block

  -- What both mint handlers check, which gives the configuration.
  unfoldable pub may_mint : MessageInfo → M Config
  may_mint info = do
    constants ← load (λ s. s.config)
    require constants.mint_is_enabled mint_disabled
    minters ← load_minters
    require (contains minters info.sender) not_a_minter
    pure constants

  unfoldable pub try_mint : Env → MessageInfo → String → ℕ → Option String → M Response
  unfolding try_mint_impl may_mint safe_add
  try_mint env info recipient_name amount memo = do
    load (λ s. s.internal_secret_sensitive)
    recipient ← lift (p.addr_validate recipient_name)
    constants ← may_mint info
    total_supply ← load (λ s. s.total_supply)
    let minted = safe_add total_supply amount
    modify (λ s. record s { total_supply = some minted.0 })
    try_mint_impl info.sender recipient minted.1 constants.symbol memo env.block
    respond (
        Notification.recvd recipient (record {
          amount = minted.1;
          sender = none;
          memo_len = memo_length memo;
          sender_is_owner = true;
        })
        ∷ [])

  -- The loop of `try_batch_mint`: the supply and the notifications so far.
  unfoldable pub batch_mint_loop :
      Env
      → MessageInfo
      → Config
      → List MintAction
      → ℕ
      → List Notification
      → M (ℕ × List Notification)
  unfolding try_mint_impl safe_add
  batch_mint_loop env info constants [] total_supply notifications =
      pure (total_supply, notifications)
  batch_mint_loop env info constants (action ∷ actions) total_supply notifications = do
    let minted = safe_add total_supply action.amount
    recipient ← lift (p.addr_validate action.recipient)
    try_mint_impl info.sender recipient minted.1 constants.symbol action.memo env.block
    batch_mint_loop env info constants actions minted.0 (
        notifications
        ++ Notification.recvd recipient (record {
          amount = minted.1;
          sender = none;
          memo_len = memo_length action.memo;
          sender_is_owner = true;
        })
          ∷ [])

  unfoldable pub try_batch_mint : Env → MessageInfo → List MintAction → M Response
  unfolding batch_mint_loop may_mint
  try_batch_mint env info actions = do
    load (λ s. s.internal_secret_sensitive)
    constants ← may_mint info
    total_supply ← load (λ s. s.total_supply)
    minted ← batch_mint_loop env info constants actions total_supply []
    modify (λ s. record s { total_supply = some minted.0 })
    respond minted.1

  -- The amount leaves the supply.
  unfoldable pub burn_supply : ℕ → M (Unit {0})
  burn_supply amount = do
    total_supply ← load (λ s. s.total_supply)
    new_total_supply ← lift (or_err (checked_sub total_supply amount) burn_exceeds_supply)
    modify (λ s. record s { total_supply = some new_total_supply })

  unfoldable pub try_burn : Env → MessageInfo → ℕ → Option String → M Response
  unfolding burn_supply
  try_burn env info amount memo = do
    load (λ s. s.internal_secret_sensitive)
    constants ← load (λ s. s.config)
    require constants.burn_is_enabled burn_disabled
    raw_burn_address ← lift (p.addr_canonicalize info.sender)
    tx_id ←
        store_burn_action raw_burn_address raw_burn_address amount constants.symbol memo env.block
    dwb ← load (λ s. s.dwb)
    settled ← settle_sender_or_owner_account p dwb raw_burn_address tx_id amount false
    modify (λ s. record s { dwb = some settled.1 })
    burn_supply amount
    respond (
        Notification.spent info.sender (record {
          amount = amount;
          actions = 1;
          recipient = none;
          balance = settled.0;
          memo_len = memo_length memo;
        })
        ∷ [])

  -- The settling of owner and burner that `try_burn_from` and its batch share: the owner's balance.
  unfoldable pub burn_for : Env → Config → Bytes → Bytes → ℕ → Option String → M ℕ
  unfolding settle_other
  burn_for env constants raw_owner raw_burner amount memo = do
    tx_id ← store_burn_action raw_owner raw_burner amount constants.symbol memo env.block
    dwb ← load (λ s. s.dwb)
    let is_same = bytes_eq raw_burner raw_owner
    settled ← settle_sender_or_owner_account p dwb raw_owner tx_id amount is_same
    dwb' ← settle_other (not is_same) settled.1 raw_burner tx_id
    modify (λ s. record s { dwb = some dwb' })
    pure settled.0

  unfoldable pub try_burn_from : Env → MessageInfo → String → ℕ → Option String → M Response
  unfolding burn_for burn_supply
  try_burn_from env info owner_name amount memo = do
    load (λ s. s.internal_secret_sensitive)
    owner ← lift (p.addr_validate owner_name)
    raw_owner ← lift (p.addr_canonicalize owner)
    constants ← load (λ s. s.config)
    require constants.burn_is_enabled burn_disabled
    use_allowance env owner info.sender amount
    raw_burner ← lift (p.addr_canonicalize info.sender)
    owner_balance ← burn_for env constants raw_owner raw_burner amount memo
    burn_supply amount
    respond (
        Notification.spent owner (record {
          amount = amount;
          actions = 1;
          recipient = none;
          balance = owner_balance;
          memo_len = memo_length memo;
        })
        ∷ [])

  -- The loop of `try_batch_burn_from`; each notification goes to the spender.
  unfoldable pub batch_burn_loop :
      Env
      → MessageInfo
      → Config
      → Bytes
      → List BurnFromAction
      → ℕ
      → List Notification
      → M (ℕ × List Notification)
  unfolding burn_for
  batch_burn_loop env info constants raw_spender [] total_supply notifications =
      pure (total_supply, notifications)
  batch_burn_loop env info constants raw_spender (action ∷ actions) total_supply notifications = do
    owner ← lift (p.addr_validate action.owner)
    raw_owner ← lift (p.addr_canonicalize owner)
    use_allowance env owner info.sender action.amount
    owner_balance ← burn_for env constants raw_owner raw_spender action.amount action.memo
    new_total_supply ← lift (or_err (checked_sub total_supply action.amount) burn_exceeds_supply)
    batch_burn_loop env info constants raw_spender actions new_total_supply (
        notifications
        ++ Notification.spent info.sender (record {
          amount = action.amount;
          actions = 1;
          recipient = none;
          balance = owner_balance;
          memo_len = memo_length action.memo;
        })
          ∷ [])

  unfoldable pub try_batch_burn_from : Env → MessageInfo → List BurnFromAction → M Response
  unfolding batch_burn_loop
  try_batch_burn_from env info actions = do
    load (λ s. s.internal_secret_sensitive)
    constants ← load (λ s. s.config)
    require constants.burn_is_enabled burn_disabled
    raw_spender ← lift (p.addr_canonicalize info.sender)
    total_supply ← load (λ s. s.total_supply)
    burnt ← batch_burn_loop env info constants raw_spender actions total_supply []
    modify (λ s. record s { total_supply = some burnt.0 })
    respond burnt.1
