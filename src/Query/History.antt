-- ===== src/Query/History.antt =====
-- `query_transactions` of src/query.rs.
use Prim.Native.Nat.{bit_xor}
use snip20_reference_impl.Common.{
  ℕ, zero, suc, ◌-◌, ◌*◌, ◌/◌, ◌^◌, String, Bool, true, false, Option, none, some, List, [], ◌∷◌,
  ◌++◌, take, drop, length, leb, ltb, ◌==◌, if◌then◌else◌,
}
use snip20_reference_impl.Common.Bytes.{Bytes, from_be_bytes}
use snip20_reference_impl.Outcome.{
  Result, ok, err, ◌>>=◌, or_err, index, not_found, overflow, index_out_of_bounds,
  invalid_page_size,
}
use snip20_reference_impl.Word.{u32_max, add_word, sub_word}
use snip20_reference_impl.Platform.{Platform}
use snip20_reference_impl.State.{Storage}
use snip20_reference_impl.TxHistory.{Tx}
use snip20_reference_impl.Query.{QueryAnswer, transaction_history}
use snip20_reference_impl.Dwb.Types.{TxBundle}
use snip20_reference_impl.Dwb.Entry.{DwbEntry, head_node, list_len}
use snip20_reference_impl.Dwb.Nodes.{as_vec}
use snip20_reference_impl.Dwb.Buffer.{recipient_match}
use snip20_reference_impl.Btbe.Entry.{StoredEntry, history_len}
use snip20_reference_impl.Btbe.Bundles.{get_tx_bundle_at, stored_tx_count}
use snip20_reference_impl.Btbe.Trie.{stored_entry, find_start_bundle}

-- `v[from..to]`
unfoldable pub slice_vec : ℕ → ℕ → List Tx → Result (List Tx)
slice_vec from to txs =
    if ltb to from
    then err index_out_of_bounds
    else (if ltb (length txs) to
        then err index_out_of_bounds
        else ok (take (to - from) (drop from txs)))

-- `v[from..]`
unfoldable pub slice_from : ℕ → List Tx → Result (List Tx)
slice_from from txs = if ltb (length txs) from then err index_out_of_bounds else ok (drop from txs)

-- `a * b` on u32
abbrev mul_u32 : ℕ → ℕ → Result ℕ
mul_u32 a b = if leb (a * b) u32_max then ok (a * b) else err overflow

module _ (p : Platform) where
  -- The list that a head node begins.
  unfoldable pub list_at : ℕ → Storage → Result (List Tx)
  list_at head s = do node ← or_err (s.tx_nodes head) not_found; as_vec p node s

  -- One bundle of the loop that goes back through the history: whether it ends the loop, how many
  -- transactions are left to take, and those that it gives.
  unfoldable pub bundle_step : TxBundle → ℕ → Storage → Result (Bool × ℕ × List Tx)
  unfolding list_at slice_vec
  bundle_step bundle txs_left s = elim (ltb 0 bundle.head_node) [
    | false ↦ ok (false, txs_left, [])
    | true ↦ (do
      txs ← list_at bundle.head_node s
      elim (leb txs_left bundle.list_len) [
        | true ↦ (do part ← slice_vec 0 txs_left txs; ok (true, txs_left, part))
        | false ↦ ok (false, txs_left - bundle.list_len, txs)
      ])
  ]

  -- The loop, from a bundle down to the first.
  unfoldable pub back_loop : StoredEntry → ℕ → ℕ → Storage → Result (List Tx)
  unfolding bundle_step
  back_loop entry zero txs_left s = do
    bundle ← get_tx_bundle_at entry 0 s
    taken ← bundle_step bundle txs_left s
    ok (taken.2)
  back_loop entry (suc bundle_idx) txs_left s = do
    bundle ← get_tx_bundle_at entry (suc bundle_idx) s
    taken ← bundle_step bundle txs_left s
    elim (taken.0) [
      | true ↦ ok (taken.2)
      | false ↦ (do older ← back_loop entry bundle_idx (taken.1) s; ok (taken.2 ++ older))
    ]

  -- The buffered transactions, read only if the page begins among them.
  unfoldable pub buffered_txs : ℕ → DwbEntry → ℕ → Storage → Result (List Tx)
  unfolding list_at
  buffered_txs dwb_index entry start s =
      if ltb 0 dwb_index
      then (if ltb 0 (list_len entry)
          then (if ltb start (list_len entry)
              then (if ltb 0 (head_node entry) then list_at (head_node entry) s else ok [])
              else ok [])
          else ok [])
      else ok []

  -- Option 2: the page begins in the buffer and ends in the settled history.
  unfoldable pub from_buffer : List Tx → Option StoredEntry → ℕ → ℕ → Storage → Result (List Tx)
  unfolding slice_from back_loop
  from_buffer txs_in_dwb account start end s = do
    txs ← slice_from start txs_in_dwb
    count ← sub_word end start
    let txs_left = count - length txs
    elim account [
      | none ↦ ok txs
      | some entry ↦ elim (history_len entry) [
        | zero ↦ ok txs
        | suc last ↦ (do older ← back_loop entry last txs_left s; ok (txs ++ older))
      ]
    ]

  -- What is still taken behind the first bundle.
  unfoldable pub behind_first : Option StoredEntry → ℕ → ℕ → Storage → Result (List Tx)
  unfolding back_loop
  behind_first account zero txs_left s = ok []
  behind_first account (suc bundle_idx) txs_left s =
      if txs_left == 0
      then ok []
      else elim account [ none ↦ ok [] | some entry ↦ back_loop entry bundle_idx txs_left s ]

  -- Option 3, from the bundle that the search found.
  unfoldable pub from_bundle :
      Option StoredEntry → ℕ × TxBundle × ℕ → ℕ → ℕ → Storage → Result (List Tx)
  unfolding list_at slice_vec slice_from behind_first
  from_bundle account found start end s = do
    let bundle = found.1
    let start_at = found.2
    txs_left ← sub_word end start
    end_at ← add_word u32_max start_at txs_left
    elim (leb end_at bundle.list_len) [
      | true ↦ elim (ltb 0 bundle.head_node) [
        | false ↦ ok []
        | true ↦ (do txs ← list_at bundle.head_node s; slice_vec start_at end_at txs)
      ]
      | false ↦ elim (ltb 0 bundle.head_node) [
        | false ↦ behind_first account found.0 txs_left s
        | true ↦ (do
          txs ← list_at bundle.head_node s
          first ← slice_from start_at txs
          rest ← sub_word bundle.list_len start_at
          older ← behind_first account found.0 (txs_left - rest) s
          ok (first ++ older))
      ]
    ]

  unfoldable pub from_history :
      Bytes → Option StoredEntry → ℕ → ℕ → ℕ → ℕ → Storage → Result (List Tx)
  unfolding from_bundle
  from_history account_raw account buffered settled start end s = do
    found ← find_start_bundle p account_raw (settled - (start - buffered) - 1) s
    elim found [ none ↦ ok [] | some bundle ↦ from_bundle account bundle start end s ]

  unfoldable pub page_txs :
      Bytes → Option StoredEntry → List Tx → ℕ → ℕ → ℕ → ℕ → Storage → Result (List Tx)
  unfolding slice_vec from_buffer from_history
  page_txs account_raw account txs_in_dwb buffered settled start end s =
      if ltb start buffered
      then (if ltb end buffered
          then slice_vec start end txs_in_dwb
          else from_buffer txs_in_dwb account start end s)
      else from_history account_raw account buffered settled start end s

  -- `PRNG(PRNG(serial_id) ^ secret)`, its 53 highest bits
  unfoldable pub obfuscated : ℕ → Tx → Tx
  obfuscated secret tx = record tx {
    id = p.chacha_next_u64 (bit_xor (p.chacha_next_u64 tx.id) secret) / 2 ^ (64 - 53);
  }

  map_txs : (Tx → Tx) → List Tx → List Tx
  map_txs f [] = []
  map_txs f (tx ∷ txs) = f tx ∷ map_txs f txs

  unfoldable pub query_transactions : String → ℕ → ℕ → Storage → Result QueryAnswer
  unfolding buffered_txs page_txs obfuscated map_txs
  query_transactions account page page_size s = elim (page_size == 0) [
    | true ↦ err invalid_page_size
    | false ↦ (do
      account_raw ← p.addr_canonicalize account
      start ← mul_u32 page page_size
      page_end ← add_word u32_max start page_size
      dwb ← or_err s.dwb not_found
      let dwb_index = recipient_match p dwb.entries account_raw
      entry ← index dwb.entries dwb_index
      txs_in_dwb ← buffered_txs dwb_index entry start s
      stored ← stored_entry p account_raw s
      settled ← stored_tx_count stored s
      total ← add_word u32_max (list_len entry) settled
      let end = if ltb total page_end then total else page_end
      txs ← page_txs account_raw stored txs_in_dwb (list_len entry) settled start end s
      internal_secret ← or_err s.internal_secret_relaxed not_found
      elim (ltb (length internal_secret) 8) [
        | true ↦ err index_out_of_bounds
        | false ↦ ok (
            transaction_history (map_txs (obfuscated (from_be_bytes (take 8 internal_secret))) txs)
              (some total))
      ])
  ]
