-- ===== src/Execute/Send/Callback.antt =====
-- A send as a transfer with a message.
use text.Mathlib.Text.{◌==◌ as str_eq}
use snip20_reference_impl.Common.{
  ℕ, String, ◌≡◌, refl, Option, none, some, List, [], ◌∷◌, inl, inr, arith, Option-cases,
  Bool-cases,
}
use snip20_reference_impl.Outcome.{ok, err, Result-cases}
use snip20_reference_impl.Platform.{Platform}
use snip20_reference_impl.State.{Storage, ◌>>=◌, pure}
use snip20_reference_impl.Execute.Transfer.{try_transfer, try_transfer_impl}
use snip20_reference_impl.Execute.Types.{Env, MessageInfo, CosmosMsg}
use snip20_reference_impl.Execute.Send.{
  try_send, try_send_impl, add_receiver_api_callback, into_cosmos_msg, with_messages,
}

-- The message that an address with this hash is sent.
abbrev pub messages_to :
    String → Option String → Option String → String → String → ℕ → Option String → List CosmosMsg
messages_to recipient none msg sender from amount memo = []
messages_to recipient (some code_hash) msg sender from amount memo =
    CosmosMsg.wasm_execute code_hash recipient
      (record { sender = sender; from = from; amount = amount; memo = memo; msg = msg })
    ∷ []

-- The hash given comes first, then the one that the contract has registered.
abbrev pub hash_for : Storage → String → Option String → Option String
hash_for s recipient none = s.receiver_hash recipient
hash_for s recipient (some code_hash) = some code_hash

add_receiver_api_callback_exact :
    (recipient : String) (code_hash msg : Option String) (sender from : String) (amount : ℕ)
    (memo : Option String) (s : Storage)
    → add_receiver_api_callback recipient code_hash msg sender from amount memo s
      ≡ ok (messages_to recipient (hash_for s recipient code_hash) msg sender from amount memo, s)
unfolding add_receiver_api_callback into_cosmos_msg
add_receiver_api_callback_exact recipient (some code_hash) msg sender from amount memo s = refl
add_receiver_api_callback_exact recipient none msg sender from amount memo s =
    elim (Option-cases (s.receiver_hash recipient)) [ inl e ↦ rw e refl | inr (h, e) ↦ rw e refl ]

module _ (p : Platform) (env : Env) (info : MessageInfo) (recipient_name recipient : String)
    (amount : ℕ) (memo msg : Option String)
    (valid : p.addr_validate recipient_name ≡ ok recipient) where
  try_send-eq :
      (code_hash : Option String) (s : Storage)
      → try_send p env info recipient_name code_hash amount memo msg s
        ≡ (try_transfer p env info recipient_name amount memo >>= λ r.
              add_receiver_api_callback recipient code_hash msg info.sender info.sender amount memo
              >>= λ messages. pure (with_messages messages r))
            s
  unfolding try_send try_send_impl try_transfer
  try_send-eq code_hash s = elim (Option-cases s.internal_secret_sensitive) [
    | inl no_secret ↦ ground (arith, no_secret)
    | inr (secret, has_secret) ↦ elim (Option-cases s.config) [
      | inl no_config ↦ ground (arith, valid, has_secret, no_config)
      | inr (config, has_config) ↦ elim (Bool-cases (str_eq recipient env.contract_address)) [
        | inl own ↦ ground (arith, valid, has_secret, has_config, own)
        | inr other ↦
            elim (Result-cases
              (try_transfer_impl p info.sender recipient amount config.symbol memo env.block s)) [
                | inr (x, q) ↦ ground (arith, valid, has_secret, has_config, other, q)
                | inl ((sent, t), q) ↦
                    let called =
                      add_receiver_api_callback_exact recipient code_hash msg info.sender
                        info.sender amount memo t in
                    elim (Option-cases t.notifications_enabled) [
                      | inl no_switch ↦
                          ground (arith, valid, has_secret, has_config, other, q, called, no_switch)
                      | inr (enabled, has_switch) ↦
                          ground
                            (arith, valid, has_secret, has_config, other, q, called, has_switch)
                    ]
              ]
      ]
    ]
  ]

  -- A send to a valid address succeeds exactly where the transfer does, with the same storage and
  -- notifications, and with one message to the recipient's contract if a hash is given or registered.
  pub try_send_exact :
      (code_hash : Option String) (s : Storage)
      → try_send p env info recipient_name code_hash amount memo msg s
        ≡ elim (try_transfer p env info recipient_name amount memo s) [
          | ok (r, s') ↦ ok (
            with_messages
                (messages_to recipient
                  (hash_for s' recipient code_hash)
                  msg
                  info.sender
                  info.sender
                  amount
                  memo)
                r,
            s',
          )
          | err x ↦ err x
        ]
  try_send_exact code_hash s =
      let by_parts = try_send-eq code_hash s in
      elim (Result-cases (try_transfer p env info recipient_name amount memo s)) [
        | inr (x, q) ↦ ground (arith, by_parts, q)
        | inl ((r, s'), q) ↦
            let called =
              add_receiver_api_callback_exact recipient code_hash msg info.sender info.sender amount
                memo s' in
            ground (arith, by_parts, q, called)
      ]
