-- ===== src/Execute/Send.antt =====
-- The sends of src/execute_transfer_send.rs: transfers with a message to the recipient's contract,
-- and `Snip20ReceiveMsg::into_cosmos_msg` of src/receiver.rs.
pub mod Callback
pub mod Frame
use text.Mathlib.Text.{◌==◌ as str_eq}
use snip20_reference_impl.Common.{
  ℕ, ◌+◌, String, Bool, true, false, not, Option, none, some, List, [], ◌∷◌, ◌++◌, map, length,
}
use snip20_reference_impl.Outcome.{Result, ok, err, ◌>>=◌ as bind, send_to_contract, missing_value}
use snip20_reference_impl.Word.{u128_max, add_word}
use snip20_reference_impl.Platform.{Platform}
use snip20_reference_impl.TxHistory.Store.{BlockInfo}
use snip20_reference_impl.State.{M, ◌>>=◌, ◌>>◌, pure, lift, load, gets, require}
use snip20_reference_impl.Execute.MintBurn.{memo_length, respond}
use snip20_reference_impl.Execute.Transfer.{
  Notified, recvd_part, spent_part, last_balance, try_transfer_impl, try_transfer_from_impl,
}
use snip20_reference_impl.Execute.Types.{
  Env, MessageInfo, Response, Notification, SpentNotification, Snip20ReceiveMsg, CosmosMsg, done,
}

-- `batch::SendAction` and `batch::SendFromAction` of src/batch.rs
pub record SendAction : Type 0 where
  pub recipient : String
  pub recipient_code_hash : Option String
  pub amount : ℕ
  pub msg : Option String
  pub memo : Option String

pub record SendFromAction : Type 0 where
  pub owner : String
  pub recipient : String
  pub recipient_code_hash : Option String
  pub amount : ℕ
  pub msg : Option String
  pub memo : Option String

-- The message is sent with no funds.
unfoldable pub into_cosmos_msg : Snip20ReceiveMsg → String → String → CosmosMsg
into_cosmos_msg self code_hash contract_addr = CosmosMsg.wasm_execute code_hash contract_addr self

-- The messages that are added: one to the contract under the hash given, or else under the one that it
-- has registered.
unfoldable pub add_receiver_api_callback :
    String
    → Option String
    → Option String
    → String
    → String
    → ℕ
    → Option String
    → M (List CosmosMsg)
unfolding into_cosmos_msg
add_receiver_api_callback recipient (some receiver_hash) msg sender from amount memo = pure (
    into_cosmos_msg
      (record { sender = sender; from = from; amount = amount; memo = memo; msg = msg })
      receiver_hash recipient
    ∷ [])
add_receiver_api_callback recipient none msg sender from amount memo = do
  registered ← gets (λ s. s.receiver_hash recipient)
  pure (elim registered [
    | none ↦ []
    | some receiver_hash ↦
        into_cosmos_msg
          (record { sender = sender; from = from; amount = amount; memo = memo; msg = msg })
          receiver_hash recipient
        ∷ []
  ])

abbrev pub with_messages : List CosmosMsg → Response → Response
with_messages messages r = record r { messages = messages }

module _ (p : Platform) where
  unfoldable pub try_send_impl :
      String
      → String
      → Option String
      → ℕ
      → String
      → Option String
      → Option String
      → BlockInfo
      → M (Notified × List CosmosMsg)
  try_send_impl sender recipient code_hash amount denom memo msg block = do
    sent ← try_transfer_impl p sender recipient amount denom memo block
    messages ← add_receiver_api_callback recipient code_hash msg sender sender amount memo
    pure (sent, messages)

  unfoldable pub try_send_from_impl :
      Env
      → MessageInfo
      → String
      → String
      → Option String
      → ℕ
      → Option String
      → Option String
      → M (Notified × List CosmosMsg)
  try_send_from_impl env info owner recipient code_hash amount memo msg = do
    config ← load (λ s. s.config)
    sent ← try_transfer_from_impl p env info.sender owner recipient amount config.symbol memo
    messages ← add_receiver_api_callback recipient code_hash msg info.sender owner amount memo
    pure (sent, messages)

  unfoldable pub try_send :
      Env → MessageInfo → String → Option String → ℕ → Option String → Option String → M Response
  unfolding try_send_impl
  try_send env info recipient_name code_hash amount memo msg = do
    load (λ s. s.internal_secret_sensitive)
    recipient ← lift (p.addr_validate recipient_name)
    config ← load (λ s. s.config)
    require (not (str_eq recipient env.contract_address)) send_to_contract
    sent ← try_send_impl info.sender recipient code_hash amount config.symbol memo msg env.block
    response ← respond (recvd_part sent.0 ∷ spent_part sent.0 ∷ [])
    pure (with_messages sent.1 response)

  -- The loop of `try_batch_send`: the length of all memos, the messages and the notifications so far.
  unfoldable pub batch_send_loop :
      Env
      → MessageInfo
      → String
      → List SendAction
      → ℕ
      → List CosmosMsg
      → List Notified
      → M (ℕ × List CosmosMsg × List Notified)
  unfolding try_send_impl
  batch_send_loop env info symbol [] total_memo_len messages sent =
      pure (total_memo_len, messages, sent)
  batch_send_loop env info symbol (action ∷ actions) total_memo_len messages sent = do
    recipient ← lift (p.addr_validate action.recipient)
    require (not (str_eq recipient env.contract_address)) send_to_contract
    one ←
        try_send_impl info.sender recipient action.recipient_code_hash action.amount symbol
          action.memo action.msg env.block
    batch_send_loop env info symbol actions (total_memo_len + memo_length action.memo)
        (messages ++ one.1) (sent ++ one.0 ∷ [])

  -- The sum of the amounts spent, which overflows above the largest number of the word.
  sum_spent : ℕ → List Notified → Result ℕ
  sum_spent acc [] = ok acc
  sum_spent acc (n ∷ ns) =
      bind (add_word u128_max acc ((n.1).1).amount) (λ total. sum_spent total ns)

  -- The one spent notification of a batch: the first recipient and the last balance.
  batch_send_spent : String → ℕ → ℕ → List Notified → Result Notification
  unfolding sum_spent last_balance
  batch_send_spent sender num_actions memo_len [] = err missing_value
  batch_send_spent sender num_actions memo_len (n ∷ ns) = bind (sum_spent 0 (n ∷ ns)) (λ total. ok (
      Notification.spent sender (record {
        amount = total;
        actions = num_actions;
        recipient = ((n.1).1).recipient;
        balance = last_balance p 0 (n ∷ ns);
        memo_len = memo_len;
      })))

  respond_batch_send : Bool → String → ℕ → ℕ × List CosmosMsg × List Notified → M Response
  respond_batch_send false sender num_actions (memo_len, messages, sent) =
      pure (with_messages messages done)
  respond_batch_send true sender num_actions (memo_len, messages, sent) = do
    spent ← lift (batch_send_spent sender num_actions memo_len sent)
    pure (record { messages = messages; notifications = map recvd_part sent ++ spent ∷ [] })

  unfoldable pub try_batch_send : Env → MessageInfo → List SendAction → M Response
  unfolding batch_send_loop respond_batch_send batch_send_spent
  try_batch_send env info [] = pure done
  try_batch_send env info (action ∷ actions) = do
    load (λ s. s.internal_secret_sensitive)
    config ← load (λ s. s.config)
    sent ← batch_send_loop env info config.symbol (action ∷ actions) 0 [] []
    enabled ← load (λ s. s.notifications_enabled)
    respond_batch_send enabled info.sender (length (action ∷ actions)) sent

  unfoldable pub try_send_from :
      Env
      → MessageInfo
      → String
      → String
      → Option String
      → ℕ
      → Option String
      → Option String
      → M Response
  unfolding try_send_from_impl
  try_send_from env info owner_name recipient_name code_hash amount memo msg = do
    load (λ s. s.internal_secret_sensitive)
    owner ← lift (p.addr_validate owner_name)
    recipient ← lift (p.addr_validate recipient_name)
    sent ← try_send_from_impl env info owner recipient code_hash amount memo msg
    response ← respond (recvd_part sent.0 ∷ spent_part sent.0 ∷ [])
    pure (with_messages sent.1 response)

  unfoldable pub batch_send_from_loop :
      Env
      → MessageInfo
      → List SendFromAction
      → List CosmosMsg
      → List Notified
      → M (List CosmosMsg × List Notified)
  unfolding try_send_from_impl
  batch_send_from_loop env info [] messages sent = pure (messages, sent)
  batch_send_from_loop env info (action ∷ actions) messages sent = do
    owner ← lift (p.addr_validate action.owner)
    recipient ← lift (p.addr_validate action.recipient)
    one ←
        try_send_from_impl env info owner recipient action.recipient_code_hash action.amount
          action.memo action.msg
    batch_send_from_loop env info actions (messages ++ one.1) (sent ++ one.0 ∷ [])

  unfoldable pub try_batch_send_from : Env → MessageInfo → List SendFromAction → M Response
  unfolding batch_send_from_loop
  try_batch_send_from env info actions = do
    load (λ s. s.internal_secret_sensitive)
    sent ← batch_send_from_loop env info actions [] []
    response ← respond (map recvd_part (sent.1) ++ map spent_part (sent.1))
    pure (with_messages (sent.0) response)
