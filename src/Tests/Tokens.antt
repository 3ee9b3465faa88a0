-- ===== src/Tests/Tokens.antt =====
-- The theorems on allowances and stored transactions at concrete inputs.
use text.Mathlib.Text.{◌==◌ as str_eq}
use snip20_reference_impl.Common.{
  ◌↔◌, ℕ, [], ◌∷◌, All, ◌-◌, ◌<◌, ◌≤◌, String, ◌≡◌, ◌≢◌, ◌⊎◌, refl, true, false, none, some,
  if◌then◌else◌,
}
use snip20_reference_impl.Common.Bytes.{Bytes, bytes_eq}
use snip20_reference_impl.Outcome.{ok, err, insufficient_allowance}
use snip20_reference_impl.State.{Storage}
use snip20_reference_impl.State.Allowances.{is_expired_at, load_allowance}
use snip20_reference_impl.Execute.Types.{Env}
use snip20_reference_impl.Execute.Allowance.{use_allowance}
use snip20_reference_impl.Execute.Allowance.Use.{use_allowance_exact}
use snip20_reference_impl.TxHistory.{TxAction, into_tx_action}
use snip20_reference_impl.TxHistory.RoundTrip.{stored, into_tx_action-stored}
use snip20_reference_impl.Tests.Setup.{platform, alice, bob, fresh}

canonical : String → Bytes
canonical name = if str_eq name "alice" then alice else bob

names_read_back : All (λ a. platform.addr_humanize (canonical a) ≡ ok a) ("alice" ∷ "bob" ∷ [])
unfolding platform canonical bytes_eq
names_read_back = (refl, (refl, tt))

into_tx_action-stored_example :
    into_tx_action platform (stored (TxAction.mint "alice" "bob") canonical)
    ≡ ok (TxAction.mint "alice" "bob")
into_tx_action-stored_example =
    into_tx_action-stored platform canonical (TxAction.mint "alice" "bob") names_read_back

-- Alice lets bob spend 10, without an end.
abbrev allowing : Storage
allowing = record fresh {
  allowances = λ owner spender.
      if str_eq owner "alice" then some (record { amount = 10; expiration = none }) else none;
}

abbrev env : Env
env = record { block = record { seconds = 5; height = 1 }; contract_address = "contract" }

use_allowance_exact_example :
    let a = load_allowance allowing "alice" "bob" in
    ((is_expired_at a 5 ≡ true) ↔ ((time : ℕ) × (a.expiration ≡ some time) × (time ≤ 5)))
    × ((is_expired_at a 5 ≡ true) ⊎ (a.amount ≡ 0)
        → use_allowance env "alice" "bob" 4 allowing ≡ err (insufficient_allowance 0 4))
    × (is_expired_at a 5 ≡ false
        → 0 < a.amount
        → a.amount < 4
        → use_allowance env "alice" "bob" 4 allowing ≡ err (insufficient_allowance a.amount 4))
    × (is_expired_at a 5 ≡ false
        → 0 < a.amount
        → 4 ≤ a.amount
        → (s' : Storage) × (use_allowance env "alice" "bob" 4 allowing ≡ ok (tt, s'))
          × (load_allowance s' "alice" "bob" ≡ record a { amount = a.amount - 4 })
          × ((o sp : String)
              → (o ≢ "alice") ⊎ (sp ≢ "bob")
              → load_allowance s' o sp ≡ load_allowance allowing o sp))
use_allowance_exact_example = use_allowance_exact env "alice" "bob" 4 allowing
