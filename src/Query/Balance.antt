-- ===== src/Query/Balance.antt =====
-- What `query_balance` answers, in terms of the balances in the trie and the amounts in the buffer.
use snip20_reference_impl.Common.{ℕ, String, ◌≡◌, ◌≢◌, some, List, ◌∷◌, arith, get_elem?}
use snip20_reference_impl.Common.Bytes.{Bytes}
use snip20_reference_impl.Outcome.{ok}
use snip20_reference_impl.Word.{u128_max, saturating_add}
use snip20_reference_impl.Platform.{Platform, Documented}
use snip20_reference_impl.State.{Storage}
use snip20_reference_impl.Dwb.Entry.{DwbEntry, amount}
use snip20_reference_impl.Dwb.Types.{DelayedWriteBuffer}
use snip20_reference_impl.Dwb.Buffer.Match.{Absent, OnlyAt, recipient_match_exact}
use snip20_reference_impl.Btbe.Entry.{impossible_addr}
use snip20_reference_impl.Btbe.Trie.Invariant.{IsTrie, Ledger}
use snip20_reference_impl.Btbe.Settle.Start.{stored_balance-Ledger}
use snip20_reference_impl.Query.{query_balance, balance}

-- The balance that an account is told is the one in the trie with what waits for it in the buffer.
pub query_balance-Ledger :
    (p : Platform) (doc : Documented p) (secret : Bytes) (s : Storage) (held : Bytes → ℕ)
    (account : String) (a : Bytes) (b : DelayedWriteBuffer) (dummy : DwbEntry) (es : List DwbEntry)
    → IsTrie p secret s
    → Ledger doc secret s held
    → p.addr_canonicalize account ≡ ok a
    → a ≢ impossible_addr
    → s.dwb ≡ some b
    → b.entries ≡ dummy ∷ es
    → (Absent p doc a es → query_balance p account s ≡ ok (balance (held a)))
      × ((i : ℕ) (e : DwbEntry)
          → OnlyAt p doc a es i
          → get_elem? es i ≡ some e
          → query_balance p account s ≡ ok (balance (saturating_add u128_max (held a) (amount e))))
unfolding query_balance
query_balance-Ledger p doc secret s held account a b dummy es t ledger q ne h hes =
    let stored = stored_balance-Ledger p doc secret s held a t ledger ne in
    let (on_absent, on_only) = recipient_match_exact p doc a dummy es in
    (
      λ absent. let m = on_absent absent in ground (arith, q, stored, h, hes, m),
      λ i e only g. let m = on_only i only in ground (arith, q, stored, h, hes, m, g),
    )
