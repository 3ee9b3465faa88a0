-- ===== src/TxHistory/RoundTrip.antt =====
-- The stored form of an action gives the action back, and the codes their bytes.
use snip20_reference_impl.Common.{ℕ, ◌≤◌, String, ◌≡◌, ◌↔◌, refl, arith, List, [], ◌∷◌, All}
use snip20_reference_impl.Common.Bytes.{Bytes}
use snip20_reference_impl.Outcome.{ok, err, unexpected_tx_code}
use snip20_reference_impl.Platform.{Platform}
use snip20_reference_impl.TxHistory.{
  TxAction, TxCode, to_u8, from_u8, StoredTxAction, stored_transfer, stored_mint, stored_burn,
  stored_deposit, stored_redeem, into_tx_action,
}

-- A byte is read as a code exactly when the code is written as that byte, and any other byte is
-- reported as corrupt.
pub from_u8-to_u8 : (n : ℕ) (c : TxCode) → (from_u8 n ≡ ok c) ↔ (to_u8 c ≡ n)
unfolding from_u8 to_u8
from_u8-to_u8 n TxCode.transfer = ground arith
from_u8-to_u8 n TxCode.mint = ground arith
from_u8-to_u8 n TxCode.burn = ground arith
from_u8-to_u8 n TxCode.deposit = ground arith
from_u8-to_u8 n TxCode.redeem = ground arith

pub from_u8-unexpected : (n : ℕ) → 5 ≤ n → from_u8 n ≡ err (unexpected_tx_code n)
unfolding from_u8
from_u8-unexpected n h = ground arith

-- The stored form of an action whose addresses are the canonical forms of the given ones.
abbrev pub stored : TxAction → (String → Bytes) → StoredTxAction
stored (TxAction.transfer from sender recipient) f =
    stored_transfer (f from) (f sender) (f recipient)
stored (TxAction.mint minter recipient) f = stored_mint (f minter) (f recipient)
stored (TxAction.burn burner owner) f = stored_burn (f owner) (f burner)
stored TxAction.deposit f = stored_deposit
stored TxAction.redeem f = stored_redeem

-- The addresses of an action.
abbrev pub addresses : TxAction → List String
addresses (TxAction.transfer from sender recipient) = from ∷ sender ∷ recipient ∷ []
addresses (TxAction.mint minter recipient) = minter ∷ recipient ∷ []
addresses (TxAction.burn burner owner) = burner ∷ owner ∷ []
addresses TxAction.deposit = []
addresses TxAction.redeem = []

-- Where the platform turns the canonical form `f a` of each address `a` of an action back into `a`,
-- the stored form of the action is read back as the action.
pub into_tx_action-stored :
    (p : Platform) (f : String → Bytes) (action : TxAction)
    → All (λ a. p.addr_humanize (f a) ≡ ok a) (addresses action)
    → into_tx_action p (stored action f) ≡ ok action
unfolding into_tx_action stored_transfer stored_mint stored_burn stored_deposit stored_redeem
into_tx_action-stored p f (TxAction.transfer a b c) h = ground (arith, h)
into_tx_action-stored p f (TxAction.mint a b) h = ground (arith, h)
into_tx_action-stored p f (TxAction.burn a b) h = ground (arith, h)
into_tx_action-stored p f TxAction.deposit h = refl
into_tx_action-stored p f TxAction.redeem h = refl
