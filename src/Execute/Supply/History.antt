-- ===== src/Execute/Supply/History.antt =====
-- The supply over any sequence of messages.
use snip20_reference_impl.Common.{
  ℕ, ◌+◌, ◌≤◌, String, ◌≡◌, refl, ◌∙◌, Option, some, List, arith, ap,
}
use snip20_reference_impl.Outcome.{ok}
use snip20_reference_impl.Word.{u128_max, saturating_add}
use snip20_reference_impl.Platform.{Platform}
use snip20_reference_impl.State.{Storage}
use snip20_reference_impl.State.Frame.{Rules, rules}
use snip20_reference_impl.Execute.Types.{Env, MessageInfo, Response}
use snip20_reference_impl.Execute.Deposit.{try_deposit, try_redeem}
use snip20_reference_impl.Execute.MintBurn.{
  MintAction, BurnFromAction, try_mint, try_batch_mint, try_burn, try_burn_from,
  try_batch_burn_from,
}
use snip20_reference_impl.Execute.Transfer.{
  TransferAction, TransferFromAction, try_transfer, try_batch_transfer, try_transfer_from,
  try_batch_transfer_from,
}
use snip20_reference_impl.Execute.Transfer.Frame.{
  try_transfer-Keeps, try_batch_transfer-Keeps, try_transfer_from-Keeps,
  try_batch_transfer_from-Keeps,
}
use snip20_reference_impl.Execute.Send.{
  SendAction, SendFromAction, try_send, try_batch_send, try_send_from, try_batch_send_from,
}
use snip20_reference_impl.Execute.Send.Frame.{
  try_send-Keeps, try_batch_send-Keeps, try_send_from-Keeps, try_batch_send_from-Keeps,
}
use snip20_reference_impl.Execute.Supply.Lowered.{
  Lowered, total_burnt, try_redeem-Changes, try_burn-Changes, try_burn_from-Changes,
  try_batch_burn_from-Changes,
}
use snip20_reference_impl.Execute.Supply.Raised.{
  total_funds, total_minted, raise_all-eq, try_deposit-Changes, try_mint-Changes,
  try_batch_mint-Changes,
}

-- A message that succeeds and transfers or sends tokens, single or in a batch.
pub data Moves (p : Platform) (s s' : Storage) : Type 0 where
  transfer :
      (env : Env) (info : MessageInfo) (recipient : String) (amount : ℕ) (memo : Option String)
      (r : Response)
      → try_transfer p env info recipient amount memo s ≡ ok (r, s')
      → Moves p s s'
  batch_transfer :
      (env : Env) (info : MessageInfo) (actions : List TransferAction) (r : Response)
      → try_batch_transfer p env info actions s ≡ ok (r, s')
      → Moves p s s'
  transfer_from :
      (env : Env) (info : MessageInfo) (owner recipient : String) (amount : ℕ)
      (memo : Option String) (r : Response)
      → try_transfer_from p env info owner recipient amount memo s ≡ ok (r, s')
      → Moves p s s'
  batch_transfer_from :
      (env : Env) (info : MessageInfo) (actions : List TransferFromAction) (r : Response)
      → try_batch_transfer_from p env info actions s ≡ ok (r, s')
      → Moves p s s'
  send :
      (env : Env) (info : MessageInfo) (recipient : String) (code_hash : Option String) (amount : ℕ)
      (memo msg : Option String) (r : Response)
      → try_send p env info recipient code_hash amount memo msg s ≡ ok (r, s')
      → Moves p s s'
  batch_send :
      (env : Env) (info : MessageInfo) (actions : List SendAction) (r : Response)
      → try_batch_send p env info actions s ≡ ok (r, s')
      → Moves p s s'
  send_from :
      (env : Env) (info : MessageInfo) (owner recipient : String) (code_hash : Option String)
      (amount : ℕ) (memo msg : Option String) (r : Response)
      → try_send_from p env info owner recipient code_hash amount memo msg s ≡ ok (r, s')
      → Moves p s s'
  batch_send_from :
      (env : Env) (info : MessageInfo) (actions : List SendFromAction) (r : Response)
      → try_batch_send_from p env info actions s ≡ ok (r, s')
      → Moves p s s'

-- A message that succeeds and takes an amount out of circulation.
pub data Destroys (p : Platform) : ℕ → Storage → Storage → Type 0 where
  redeem :
      {s s' : Storage} {amount : ℕ} (env : Env) (info : MessageInfo) (denom : Option String)
      (r : Response)
      → try_redeem p env info amount denom s ≡ ok (r, s')
      → Destroys p amount s s'
  burn :
      {s s' : Storage} {amount : ℕ} (env : Env) (info : MessageInfo) (memo : Option String)
      (r : Response)
      → try_burn p env info amount memo s ≡ ok (r, s')
      → Destroys p amount s s'
  burn_from :
      {s s' : Storage} {amount : ℕ} (env : Env) (info : MessageInfo) (owner : String)
      (memo : Option String) (r : Response)
      → try_burn_from p env info owner amount memo s ≡ ok (r, s')
      → Destroys p amount s s'
  batch_burn_from :
      {s s' : Storage} (env : Env) (info : MessageInfo) (actions : List BurnFromAction)
      (r : Response)
      → try_batch_burn_from p env info actions s ≡ ok (r, s')
      → Destroys p (total_burnt actions) s s'

-- A message that succeeds and puts an amount into circulation.
pub data Creates (p : Platform) : ℕ → Storage → Storage → Type 0 where
  deposit :
      {s s' : Storage} (env : Env) (info : MessageInfo) (r : Response)
      → try_deposit p env info s ≡ ok (r, s')
      → Creates p (total_funds info.funds) s s'
  mint :
      {s s' : Storage} {amount : ℕ} (env : Env) (info : MessageInfo) (recipient : String)
      (memo : Option String) (r : Response)
      → try_mint p env info recipient amount memo s ≡ ok (r, s')
      → Creates p amount s s'
  batch_mint :
      {s s' : Storage} (env : Env) (info : MessageInfo) (actions : List MintAction) (r : Response)
      → try_batch_mint p env info actions s ≡ ok (r, s')
      → Creates p (total_minted actions) s s'

-- Messages one after another, with the amounts created and destroyed in all.
pub data History (p : Platform) (start : Storage) : ℕ → ℕ → Storage → Type 0 where
  nothing_yet : History p start 0 0 start
  then_move :
      {created destroyed : ℕ} {s s' : Storage}
      → History p start created destroyed s
      → Moves p s s'
      → History p start created destroyed s'
  then_destroy :
      {created destroyed amount : ℕ} {s s' : Storage}
      → History p start created destroyed s
      → Destroys p amount s s'
      → History p start created (destroyed + amount) s'
  then_create :
      {created destroyed amount : ℕ} {s s' : Storage}
      → History p start created destroyed s
      → Creates p amount s s'
      → History p start (created + amount) destroyed s'

module _ (p : Platform) {s s' : Storage} where
  -- A transfer or a send that succeeds, single or in a batch, of one's own or from an allowance, leaves the
  -- supply, the configuration, the status, the minters and the notifications' switch as they were.
  pub Moves-rules : Moves p s s' → rules s' ≡ rules s
  Moves-rules (transfer env info recipient amount memo r q) =
      (try_transfer-Keeps p env info recipient amount memo).kept s r s' q
  Moves-rules (batch_transfer env info actions r q) =
      (try_batch_transfer-Keeps p env info actions).kept s r s' q
  Moves-rules (transfer_from env info owner recipient amount memo r q) =
      (try_transfer_from-Keeps p env info owner recipient amount memo).kept s r s' q
  Moves-rules (batch_transfer_from env info actions r q) =
      (try_batch_transfer_from-Keeps p env info actions).kept s r s' q
  Moves-rules (send env info recipient code_hash amount memo msg r q) =
      (try_send-Keeps p env info recipient code_hash amount memo msg).kept s r s' q
  Moves-rules (batch_send env info actions r q) =
      (try_batch_send-Keeps p env info actions).kept s r s' q
  Moves-rules (send_from env info owner recipient code_hash amount memo msg r q) =
      (try_send_from-Keeps p env info owner recipient code_hash amount memo msg).kept s r s' q
  Moves-rules (batch_send_from env info actions r q) =
      (try_batch_send_from-Keeps p env info actions).kept s r s' q

-- A redemption or a burn that succeeds, single or in a batch, of one's own or from an allowance,
-- takes exactly its amount from the supply, which was at least as large.
pub Destroys-Lowered :
    (p : Platform) {s s' : Storage} {amount : ℕ}
    → Destroys p amount s s'
    → Lowered amount s.total_supply s'.total_supply
Destroys-Lowered p {s} {s'} {amount} (redeem env info denom r q) =
    (try_redeem-Changes p env info amount denom).changed s r s' q
Destroys-Lowered p {s} {s'} {amount} (burn env info memo r q) =
    (try_burn-Changes p env info amount memo).changed s r s' q
Destroys-Lowered p {s} {s'} {amount} (burn_from env info owner memo r q) =
    (try_burn_from-Changes p env info owner amount memo).changed s r s' q
Destroys-Lowered p {s} {s'} (batch_burn_from env info actions r q) =
    (try_batch_burn_from-Changes p env info actions).changed s r s' q

-- From a supply that fits a u128, what a deposit or a mint that succeeds creates is added to the
-- supply, up to the largest u128.
pub Creates-supply :
    (p : Platform) {s s' : Storage} {amount : ℕ} (supply : ℕ)
    → s.total_supply ≡ some supply
    → supply ≤ u128_max
    → Creates p amount s s'
    → s'.total_supply ≡ some (saturating_add u128_max supply amount)
Creates-supply p {s} {s'} supply h fits (deposit env info r q) =
    let (t, t', before, after, more) = (try_deposit-Changes p env info).changed s r s' q in
    let same : t ≡ supply = cc in rw (after, more, same) refl
Creates-supply p {s} {s'} {amount} supply h fits (mint env info recipient memo r q) =
    let (t, t', before, after, more) =
      (try_mint-Changes p env info recipient amount memo).changed s r s' q in
    let same : t ≡ supply = cc in rw (after, more, same) refl
Creates-supply p {s} {s'} supply h fits (batch_mint env info actions r q) =
    let (t, t', before, after, more) =
      (try_batch_mint-Changes p env info actions).changed s r s' q in
    let same : t ≡ supply = cc in rw (after, more, same, raise_all-eq supply actions fits) refl

-- After any sequence of deposits, mints, redemptions, burns, transfers and sends that succeed, single
-- or in a batch, the supply with all that was destroyed is the supply at the start with all that was
-- created, as long as these fit a u128.
pub History-supply :
    (p : Platform) {start s : Storage} {created destroyed : ℕ} (supply : ℕ)
    → start.total_supply ≡ some supply
    → supply + created ≤ u128_max
    → History p start created destroyed s
    → (now : ℕ) × (s.total_supply ≡ some now) × (now + destroyed ≡ supply + created)
History-supply p supply h fits nothing_yet = (supply, h, omega arith)
History-supply p supply h fits (then_move before m) =
    let (now, e, sum) = History-supply p supply h fits before in
    (now, ap (λ (r : Rules). r.total_supply) (Moves-rules p m) ∙ e, sum)
History-supply p supply h fits (then_destroy before m) =
    let (now, e, sum) = History-supply p supply h fits before in
    let (t, t', was, is, (room, less)) = Destroys-Lowered p m in
    let same : t ≡ now = cc in (t', is, omega arith)
History-supply p supply h fits (then_create {created} {destroyed} {amount} before m) =
    let (now, e, sum) = History-supply p supply h (omega arith) before in
    let is = Creates-supply p now e (omega arith) m in
    (saturating_add u128_max now amount, is, ground arith)
