-- ===== src/Tests/Ledger.antt =====
-- The theorems on the balances in the trie at a trie that has been started.
use snip20_reference_impl.Common.{
  ℕ, ◌≡◌, ◌≢◌, refl, some, [], ◌∷◌, ◌++◌, arith, replicate, get_elem?,
}
use snip20_reference_impl.Common.Bytes.{Bytes}
use snip20_reference_impl.Btbe.Types.{BtbeBucket}
use snip20_reference_impl.Outcome.{ok}
use snip20_reference_impl.State.{Storage}
use snip20_reference_impl.Dwb.Entry as Pending
use snip20_reference_impl.Dwb.Entry.{DwbEntry}
use snip20_reference_impl.Btbe.Entry.{impossible_addr}
use snip20_reference_impl.Btbe.Trie.{stored_balance}
use snip20_reference_impl.Btbe.Trie.Invariant.{IsTrie, Ledger}
use snip20_reference_impl.Btbe.Settle.{settle_dwb_entry, initialize_btbe}
use snip20_reference_impl.Btbe.Settle.Ledger.{Settled, settle_dwb_entry-Settled}
use snip20_reference_impl.Btbe.Settle.Start.{
  started, with_secret, initialize_btbe-Ledger, stored_balance-Ledger,
}
use snip20_reference_impl.Word.{u128_max, saturating_add}
use snip20_reference_impl.Dwb.Types.{DelayedWriteBuffer}
use snip20_reference_impl.Dwb.Buffer.Match.{Absent, OnlyAt}
use snip20_reference_impl.Query.{query_balance, balance}
use snip20_reference_impl.Query.Balance.{query_balance-Ledger}
use snip20_reference_impl.Tests.Setup.{platform, platform-Documented, alice, fresh}

abbrev secret : Bytes
secret = 1 ∷ []

-- Alice has received 2 in one transaction, and spends 1.
abbrev paid : DwbEntry
paid = alice ++ (0 ∷ 0 ∷ 0 ∷ 0 ∷ 0 ∷ 0 ∷ 0 ∷ 2 ∷ 0 ∷ 0 ∷ 0 ∷ 0 ∷ 9 ∷ 0 ∷ 1 ∷ [])

abbrev dummy : DwbEntry
dummy = replicate 35 0

abbrev buffer : DelayedWriteBuffer
buffer = record { empty_space_counter = 1; entries = dummy ∷ paid ∷ dummy ∷ [] }

abbrev unkeyed : Storage
unkeyed = record fresh { dwb = some buffer }

initialize_btbe-Ledger_example :
    (b : BtbeBucket) × (initialize_btbe platform unkeyed ≡ ok (tt, started unkeyed b))
    × IsTrie platform secret (with_secret secret (started unkeyed b))
    × Ledger platform-Documented secret (with_secret secret (started unkeyed b)) (λ a. 0)
initialize_btbe-Ledger_example =
    initialize_btbe-Ledger platform platform-Documented secret unkeyed (λ i. refl) refl

abbrev begun : Storage
begun = with_secret secret (
    started unkeyed
      ((initialize_btbe-Ledger platform platform-Documented secret unkeyed (λ i. refl) refl).0))

begun-IsTrie : IsTrie platform secret begun
begun-IsTrie =
    (initialize_btbe-Ledger platform platform-Documented secret unkeyed (λ i. refl) refl).2

begun-Ledger : Ledger platform-Documented secret begun (λ a. 0)
begun-Ledger =
    (initialize_btbe-Ledger platform platform-Documented secret unkeyed (λ i. refl) refl).3

paid_to : Pending.recipient paid ≡ alice
unfolding Pending.recipient
paid_to = refl

alice_somebody : Pending.recipient paid ≢ impossible_addr
alice_somebody q = cc (paid_to, q)

settle_dwb_entry-Settled_example :
    Settled platform-Documented secret paid
      (some 1)
      (λ a. 0)
      (settle_dwb_entry platform paid (some 1) begun)
settle_dwb_entry-Settled_example =
    settle_dwb_entry-Settled platform platform-Documented secret paid (some 1) begun (λ a. 0)
      (record { size = refl; bytes = omega arith }) alice_somebody begun-IsTrie begun-Ledger

stored_balance-Ledger_example : stored_balance platform alice begun ≡ ok 0
stored_balance-Ledger_example =
    stored_balance-Ledger platform platform-Documented secret begun (λ a. 0) alice begun-IsTrie
      begun-Ledger (λ q. cc)

named : platform.addr_canonicalize "alice" ≡ ok alice
unfolding platform
named = refl

query_balance-Ledger_example :
    (Absent platform platform-Documented alice (paid ∷ dummy ∷ [])
      → query_balance platform "alice" begun ≡ ok (balance 0))
    × ((i : ℕ) (e : DwbEntry)
        → OnlyAt platform platform-Documented alice (paid ∷ dummy ∷ []) i
        → get_elem? (paid ∷ dummy ∷ []) i ≡ some e
        → query_balance platform "alice" begun
          ≡ ok (balance (saturating_add u128_max 0 (Pending.amount e))))
query_balance-Ledger_example =
    query_balance-Ledger platform platform-Documented secret begun (λ a. 0) "alice" alice buffer
      dummy (paid ∷ dummy ∷ []) begun-IsTrie begun-Ledger named (λ q. cc) refl refl
