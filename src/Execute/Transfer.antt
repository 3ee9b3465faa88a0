-- ===== src/Execute/Transfer.antt =====
-- The transfers of src/execute_transfer_send.rs.
pub mod Frame
use text.Mathlib.Text.{◌==◌ as str_eq}
use snip20_reference_impl.Common.{
  ℕ, ◌+◌, String, Bool, true, false, not, ◌&&◌, Option, some, List, [], ◌∷◌, ◌++◌, map, length,
}
use snip20_reference_impl.Common.Bytes.{Bytes, bytes_eq}
use snip20_reference_impl.Outcome.{Result, ok, err, send_to_contract, missing_value}
use snip20_reference_impl.Word.{u128_max, saturating_add}
use snip20_reference_impl.Platform.{Platform}
use snip20_reference_impl.TxHistory.Store.{BlockInfo, store_transfer_action}
use snip20_reference_impl.State.{M, ◌>>=◌, ◌>>◌, pure, lift, load, modify, require}
use snip20_reference_impl.Dwb.Buffer.{add_recipient, settle_sender_or_owner_account}
use snip20_reference_impl.Execute.Allowance.{use_allowance}
use snip20_reference_impl.Execute.MintBurn.{memo_length, respond, settle_other}
use snip20_reference_impl.Execute.Types.{
  Env, MessageInfo, Response, Notification, RecvdNotification, SpentNotification, done,
}

-- `batch::TransferAction` and `batch::TransferFromAction` of src/batch.rs
pub record TransferAction : Type 0 where
  pub recipient : String
  pub amount : ℕ
  pub memo : Option String

pub record TransferFromAction : Type 0 where
  pub owner : String
  pub recipient : String
  pub amount : ℕ
  pub memo : Option String

-- The received and the spent notification of one transfer, with the addresses they go to.
abbrev pub Notified : Type 0
Notified = (String × RecvdNotification) × (String × SpentNotification)

abbrev pub recvd_part : Notified → Notification
recvd_part n = Notification.recvd (n.0).0 (n.0).1

abbrev pub spent_part : Notified → Notification
spent_part n = Notification.spent (n.1).0 (n.1).1

module _ (p : Platform) where
  -- The owner's balance after the transfer.
  unfoldable pub perform_transfer :
      Bytes → Bytes → Bytes → ℕ → String → Option String → BlockInfo → Bool → M ℕ
  perform_transfer from to sender amount denom memo block is_from_action = do
    tx_id ← store_transfer_action from sender to amount denom memo block
    dwb ← load (λ s. s.dwb)
    settled ←
        settle_sender_or_owner_account p dwb from tx_id amount
          (is_from_action && bytes_eq sender from)
    dwb' ← settle_other p (not (bytes_eq sender from)) settled.1 sender tx_id
    dwb'' ← add_recipient p dwb' to tx_id amount
    modify (λ s. record s { dwb = some dwb'' })
    pure settled.0

  -- The two notifications of a transfer from `owner`, who is left with `owner_balance`.
  notified : String → String → ℕ → Option String → Bool → ℕ → Notified
  notified owner recipient amount memo sender_is_owner owner_balance = (
    (
      recipient,
      record {
        amount = amount;
        sender = some owner;
        memo_len = memo_length memo;
        sender_is_owner = sender_is_owner;
      },
    ),
    (
      owner,
      record {
        amount = amount;
        actions = 1;
        recipient = some recipient;
        balance = owner_balance;
        memo_len = memo_length memo;
      },
    ),
  )

  unfoldable pub try_transfer_impl :
      String → String → ℕ → String → Option String → BlockInfo → M Notified
  unfolding notified
  try_transfer_impl owner recipient amount denom memo block = do
    raw_owner ← lift (p.addr_canonicalize owner)
    raw_recipient ← lift (p.addr_canonicalize recipient)
    owner_balance ← perform_transfer raw_owner raw_recipient raw_owner amount denom memo block false
    pure (notified owner recipient amount memo true owner_balance)

  unfoldable pub try_transfer_from_impl :
      Env → String → String → String → ℕ → String → Option String → M Notified
  unfolding notified
  try_transfer_from_impl env spender owner recipient amount denom memo = do
    raw_spender ← lift (p.addr_canonicalize spender)
    raw_owner ← lift (p.addr_canonicalize owner)
    raw_recipient ← lift (p.addr_canonicalize recipient)
    use_allowance env owner spender amount
    require (not (str_eq recipient env.contract_address)) send_to_contract
    owner_balance ←
        perform_transfer raw_owner raw_recipient raw_spender amount denom memo env.block true
    pure (notified owner recipient amount memo (str_eq spender owner) owner_balance)

  unfoldable pub try_transfer : Env → MessageInfo → String → ℕ → Option String → M Response
  unfolding try_transfer_impl
  try_transfer env info recipient_name amount memo = do
    load (λ s. s.internal_secret_sensitive)
    recipient ← lift (p.addr_validate recipient_name)
    config ← load (λ s. s.config)
    require (not (str_eq recipient env.contract_address)) send_to_contract
    sent ← try_transfer_impl info.sender recipient amount config.symbol memo env.block
    respond (recvd_part sent ∷ spent_part sent ∷ [])

  -- The loop of `try_batch_transfer`: the length of all memos and the notifications so far.
  unfoldable pub batch_transfer_loop :
      Env → MessageInfo → String → List TransferAction → ℕ → List Notified → M (ℕ × List Notified)
  unfolding try_transfer_impl
  batch_transfer_loop env info symbol [] total_memo_len sent = pure (total_memo_len, sent)
  batch_transfer_loop env info symbol (action ∷ actions) total_memo_len sent = do
    recipient ← lift (p.addr_validate action.recipient)
    require (not (str_eq recipient env.contract_address)) send_to_contract
    one ← try_transfer_impl info.sender recipient action.amount symbol action.memo env.block
    batch_transfer_loop env info symbol actions (total_memo_len + memo_length action.memo)
        (sent ++ one ∷ [])

  -- The sum of the amounts spent, up to the largest number of the word.
  total_spent : ℕ → List Notified → ℕ
  total_spent acc [] = acc
  total_spent acc (n ∷ ns) = total_spent (saturating_add u128_max acc ((n.1).1).amount) ns

  unfoldable pub last_balance : ℕ → List Notified → ℕ
  last_balance balance [] = balance
  last_balance balance (n ∷ ns) = last_balance ((n.1).1).balance ns

  -- The one spent notification of a batch: the first recipient and the last balance.
  batch_spent : String → ℕ → ℕ → List Notified → Result Notification
  unfolding total_spent last_balance
  batch_spent sender num_actions memo_len [] = err missing_value
  batch_spent sender num_actions memo_len (n ∷ ns) = ok (
      Notification.spent sender (record {
        amount = total_spent 0 (n ∷ ns);
        actions = num_actions;
        recipient = ((n.1).1).recipient;
        balance = last_balance 0 (n ∷ ns);
        memo_len = memo_len;
      }))

  respond_batch : Bool → String → ℕ → ℕ × List Notified → M Response
  respond_batch false sender num_actions sent = pure done
  respond_batch true sender num_actions (memo_len, sent) = do
    spent ← lift (batch_spent sender num_actions memo_len sent)
    pure (record done { notifications = map recvd_part sent ++ spent ∷ [] })

  unfoldable pub try_batch_transfer : Env → MessageInfo → List TransferAction → M Response
  unfolding batch_transfer_loop respond_batch batch_spent
  try_batch_transfer env info [] = pure done
  try_batch_transfer env info (action ∷ actions) = do
    load (λ s. s.internal_secret_sensitive)
    config ← load (λ s. s.config)
    sent ← batch_transfer_loop env info config.symbol (action ∷ actions) 0 []
    enabled ← load (λ s. s.notifications_enabled)
    respond_batch enabled info.sender (length (action ∷ actions)) sent

  unfoldable pub try_transfer_from :
      Env → MessageInfo → String → String → ℕ → Option String → M Response
  unfolding try_transfer_from_impl
  try_transfer_from env info owner_name recipient_name amount memo = do
    load (λ s. s.internal_secret_sensitive)
    owner ← lift (p.addr_validate owner_name)
    recipient ← lift (p.addr_validate recipient_name)
    config ← load (λ s. s.config)
    sent ← try_transfer_from_impl env info.sender owner recipient amount config.symbol memo
    respond (recvd_part sent ∷ spent_part sent ∷ [])

  unfoldable pub batch_transfer_from_loop :
      Env → MessageInfo → String → List TransferFromAction → List Notified → M (List Notified)
  unfolding try_transfer_from_impl
  batch_transfer_from_loop env info symbol [] sent = pure sent
  batch_transfer_from_loop env info symbol (action ∷ actions) sent = do
    owner ← lift (p.addr_validate action.owner)
    recipient ← lift (p.addr_validate action.recipient)
    one ← try_transfer_from_impl env info.sender owner recipient action.amount symbol action.memo
    batch_transfer_from_loop env info symbol actions (sent ++ one ∷ [])

  unfoldable pub try_batch_transfer_from : Env → MessageInfo → List TransferFromAction → M Response
  unfolding batch_transfer_from_loop
  try_batch_transfer_from env info actions = do
    load (λ s. s.internal_secret_sensitive)
    config ← load (λ s. s.config)
    sent ← batch_transfer_from_loop env info config.symbol actions []
    respond (map recvd_part sent ++ map spent_part sent)
