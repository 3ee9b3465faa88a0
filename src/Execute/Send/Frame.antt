-- ===== src/Execute/Send/Frame.antt =====
-- What the sends leave as it is.
use snip20_reference_impl.Common.{ℕ, String, Bool, true, false, Option, none, some, List, [], ◌∷◌}
use snip20_reference_impl.Platform.{Platform}
use snip20_reference_impl.TxHistory.Store.{BlockInfo}
use snip20_reference_impl.State.Frame.{Keeps, frame, rules, pure-Keeps}
use snip20_reference_impl.Execute.Types.{Env, MessageInfo, CosmosMsg}
use snip20_reference_impl.Execute.Transfer.{Notified}
use snip20_reference_impl.Execute.Transfer.Frame.{
  try_transfer_impl-Keeps, try_transfer_from_impl-Keeps,
}
use snip20_reference_impl.Execute.Send.{
  SendAction, SendFromAction, add_receiver_api_callback, try_send_impl, try_send_from_impl,
  try_send, batch_send_loop, respond_batch_send, try_batch_send, try_send_from,
  batch_send_from_loop, try_batch_send_from,
}

add_receiver_api_callback-Keeps :
    (recipient : String) (code_hash msg : Option String) (sender from : String) (amount : ℕ)
    (memo : Option String)
    → Keeps rules (add_receiver_api_callback recipient code_hash msg sender from amount memo)
unfolding add_receiver_api_callback
add_receiver_api_callback-Keeps recipient (some h) msg sender from amount memo = search frame
add_receiver_api_callback-Keeps recipient none msg sender from amount memo = search frame

module _ (p : Platform) where
  try_send_impl-Keeps :
      (sender recipient : String) (code_hash : Option String) (amount : ℕ) (denom : String)
      (memo msg : Option String) (block : BlockInfo)
      → Keeps rules (try_send_impl p sender recipient code_hash amount denom memo msg block)
  unfolding try_send_impl
  try_send_impl-Keeps sender recipient code_hash amount denom memo msg block =
      search (frame, try_transfer_impl-Keeps, add_receiver_api_callback-Keeps) depth 8

  try_send_from_impl-Keeps :
      (env : Env) (info : MessageInfo) (owner recipient : String) (code_hash : Option String)
      (amount : ℕ) (memo msg : Option String)
      → Keeps rules (try_send_from_impl p env info owner recipient code_hash amount memo msg)
  unfolding try_send_from_impl
  try_send_from_impl-Keeps env info owner recipient code_hash amount memo msg =
      search (frame, try_transfer_from_impl-Keeps, add_receiver_api_callback-Keeps) depth 8

  batch_send_loop-Keeps :
      (env : Env) (info : MessageInfo) (symbol : String) (actions : List SendAction) (n : ℕ)
      (messages : List CosmosMsg) (sent : List Notified)
      → Keeps rules (batch_send_loop p env info symbol actions n messages sent)
  unfolding batch_send_loop
  batch_send_loop-Keeps env info symbol [] n messages sent = pure-Keeps (n, messages, sent)
  batch_send_loop-Keeps env info symbol (action ∷ actions) n messages sent =
      let rest = batch_send_loop-Keeps env info symbol actions in
      search (frame, try_send_impl-Keeps, rest) depth 8

  respond_batch_send-Keeps :
      (enabled : Bool) (sender : String) (n : ℕ) (sent : ℕ × List CosmosMsg × List Notified)
      → Keeps rules (respond_batch_send p enabled sender n sent)
  unfolding respond_batch_send
  respond_batch_send-Keeps false sender n (memo_len, messages, sent) = search frame
  respond_batch_send-Keeps true sender n (memo_len, messages, sent) = search frame

  batch_send_from_loop-Keeps :
      (env : Env) (info : MessageInfo) (actions : List SendFromAction) (messages : List CosmosMsg)
      (sent : List Notified)
      → Keeps rules (batch_send_from_loop p env info actions messages sent)
  unfolding batch_send_from_loop
  batch_send_from_loop-Keeps env info [] messages sent = pure-Keeps (messages, sent)
  batch_send_from_loop-Keeps env info (action ∷ actions) messages sent =
      let rest = batch_send_from_loop-Keeps env info actions in
      search (frame, try_send_from_impl-Keeps, rest) depth 8

  pub try_send-Keeps :
      (env : Env) (info : MessageInfo) (recipient : String) (code_hash : Option String) (amount : ℕ)
      (memo msg : Option String)
      → Keeps rules (try_send p env info recipient code_hash amount memo msg)
  unfolding try_send
  try_send-Keeps env info recipient code_hash amount memo msg =
      search (frame, try_send_impl-Keeps) depth 14

  pub try_batch_send-Keeps :
      (env : Env) (info : MessageInfo) (actions : List SendAction)
      → Keeps rules (try_batch_send p env info actions)
  unfolding try_batch_send
  try_batch_send-Keeps env info [] = search frame
  try_batch_send-Keeps env info (action ∷ actions) =
      search (frame, batch_send_loop-Keeps, respond_batch_send-Keeps) depth 10

  pub try_send_from-Keeps :
      (env : Env) (info : MessageInfo) (owner recipient : String) (code_hash : Option String)
      (amount : ℕ) (memo msg : Option String)
      → Keeps rules (try_send_from p env info owner recipient code_hash amount memo msg)
  unfolding try_send_from
  try_send_from-Keeps env info owner recipient code_hash amount memo msg =
      search (frame, try_send_from_impl-Keeps) depth 14

  pub try_batch_send_from-Keeps :
      (env : Env) (info : MessageInfo) (actions : List SendFromAction)
      → Keeps rules (try_batch_send_from p env info actions)
  unfolding try_batch_send_from
  try_batch_send_from-Keeps env info actions = search (frame, batch_send_from_loop-Keeps) depth 12
