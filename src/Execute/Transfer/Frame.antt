-- ===== src/Execute/Transfer/Frame.antt =====
-- What the transfers leave as it is.
use snip20_reference_impl.Common.{ℕ, String, Bool, true, false, Option, List, [], ◌∷◌}
use snip20_reference_impl.Platform.{Platform}
use snip20_reference_impl.TxHistory.Store.{BlockInfo}
use snip20_reference_impl.State.Frame.{Keeps, frame, rules, pure-Keeps}
use snip20_reference_impl.Execute.Types.{Env, MessageInfo}
use snip20_reference_impl.Execute.Frame.{use_allowance-Keeps, perform_transfer-Keeps}
use snip20_reference_impl.Execute.Transfer.{
  TransferAction, TransferFromAction, Notified, try_transfer_impl, try_transfer_from_impl,
  try_transfer, batch_transfer_loop, respond_batch, try_batch_transfer, try_transfer_from,
  batch_transfer_from_loop, try_batch_transfer_from,
}

module _ (p : Platform) where
  pub try_transfer_impl-Keeps :
      (owner recipient : String) (amount : ℕ) (denom : String) (memo : Option String)
      (block : BlockInfo)
      → Keeps rules (try_transfer_impl p owner recipient amount denom memo block)
  unfolding try_transfer_impl
  try_transfer_impl-Keeps owner recipient amount denom memo block =
      search (frame, perform_transfer-Keeps)

  pub try_transfer_from_impl-Keeps :
      (env : Env) (spender owner recipient : String) (amount : ℕ) (denom : String)
      (memo : Option String)
      → Keeps rules (try_transfer_from_impl p env spender owner recipient amount denom memo)
  unfolding try_transfer_from_impl
  try_transfer_from_impl-Keeps env spender owner recipient amount denom memo =
      search (frame, use_allowance-Keeps, perform_transfer-Keeps) depth 12

  batch_transfer_loop-Keeps :
      (env : Env) (info : MessageInfo) (symbol : String) (actions : List TransferAction) (n : ℕ)
      (sent : List Notified)
      → Keeps rules (batch_transfer_loop p env info symbol actions n sent)
  unfolding batch_transfer_loop
  batch_transfer_loop-Keeps env info symbol [] n sent = pure-Keeps (n, sent)
  batch_transfer_loop-Keeps env info symbol (action ∷ actions) n sent =
      let rest = batch_transfer_loop-Keeps env info symbol actions in
      search (frame, try_transfer_impl-Keeps, rest) depth 8

  respond_batch-Keeps :
      (enabled : Bool) (sender : String) (n : ℕ) (sent : ℕ × List Notified)
      → Keeps rules (respond_batch p enabled sender n sent)
  unfolding respond_batch
  respond_batch-Keeps false sender n sent = search frame
  respond_batch-Keeps true sender n (memo_len, sent) = search frame

  batch_transfer_from_loop-Keeps :
      (env : Env) (info : MessageInfo) (symbol : String) (actions : List TransferFromAction)
      (sent : List Notified)
      → Keeps rules (batch_transfer_from_loop p env info symbol actions sent)
  unfolding batch_transfer_from_loop
  batch_transfer_from_loop-Keeps env info symbol [] sent = pure-Keeps sent
  batch_transfer_from_loop-Keeps env info symbol (action ∷ actions) sent =
      let rest = batch_transfer_from_loop-Keeps env info symbol actions in
      search (frame, try_transfer_from_impl-Keeps, rest) depth 8

  pub try_transfer-Keeps :
      (env : Env) (info : MessageInfo) (recipient : String) (amount : ℕ) (memo : Option String)
      → Keeps rules (try_transfer p env info recipient amount memo)
  unfolding try_transfer
  try_transfer-Keeps env info recipient amount memo =
      search (frame, try_transfer_impl-Keeps) depth 12

  pub try_batch_transfer-Keeps :
      (env : Env) (info : MessageInfo) (actions : List TransferAction)
      → Keeps rules (try_batch_transfer p env info actions)
  unfolding try_batch_transfer
  try_batch_transfer-Keeps env info [] = search frame
  try_batch_transfer-Keeps env info (action ∷ actions) =
      search (frame, batch_transfer_loop-Keeps, respond_batch-Keeps) depth 10

  pub try_transfer_from-Keeps :
      (env : Env) (info : MessageInfo) (owner recipient : String) (amount : ℕ)
      (memo : Option String)
      → Keeps rules (try_transfer_from p env info owner recipient amount memo)
  unfolding try_transfer_from
  try_transfer_from-Keeps env info owner recipient amount memo =
      search (frame, try_transfer_from_impl-Keeps) depth 12

  pub try_batch_transfer_from-Keeps :
      (env : Env) (info : MessageInfo) (actions : List TransferFromAction)
      → Keeps rules (try_batch_transfer_from p env info actions)
  unfolding try_batch_transfer_from
  try_batch_transfer_from-Keeps env info actions =
      search (frame, batch_transfer_from_loop-Keeps) depth 10
