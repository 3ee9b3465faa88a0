-- ===== src/Query/Pages.antt =====
-- The pages of `query_transactions` as parts of the whole list of an account's transactions.
use snip20_reference_impl.Common.{
  ℕ, zero, suc, ◌+◌, ◌-◌, ◌<◌, ◌≤◌, ◌≡◌, refl, ap, sym, ◌∙◌, true, false, ◌⊎◌, some, inl, inr, List,
  [], ◌++◌, arith, take, drop, length, take_nil, take_all, take_within, take_beyond, drop_within,
  drop_beyond, length-drop, append_nil, Bool-cases, leb, ltb, ◌==◌,
}
use snip20_reference_impl.Common.Bytes.{Bytes}
use snip20_reference_impl.Outcome.{ok, err, overflow}
use snip20_reference_impl.Word.{u32_max}
use snip20_reference_impl.Platform.{Platform}
use snip20_reference_impl.State.{Storage}
use snip20_reference_impl.TxHistory.{Tx}
use snip20_reference_impl.Dwb.Types.{TxBundle}
use snip20_reference_impl.Btbe.Entry.{StoredEntry, history_len}
use snip20_reference_impl.Btbe.Types.{BtbeBucket, BitwiseTrieNode}
use snip20_reference_impl.Btbe.Bucket.{constant_time_find_address}
use snip20_reference_impl.Btbe.Trie.{locate_btbe_node, node_bucket}
use snip20_reference_impl.Btbe.Trie.Search.{IsHistory, Within, find_start_bundle_exact}
use snip20_reference_impl.Query.History.{
  list_at, slice_vec, slice_from, bundle_step, back_loop, behind_first, from_bundle, from_buffer,
  from_history, page_txs,
}

-- Each bundle has a list, which is read as `read` and has the bundle's length.
pub record IsRead (p : Platform) (s : Storage) (e : StoredEntry) (bundle : ℕ → TxBundle)
    (read : ℕ → List Tx) : Type 0 where
  pub heads : (i : ℕ) → i < history_len e → 0 < (bundle i).head_node
  pub lists : (i : ℕ) → i < history_len e → list_at p (bundle i).head_node s ≡ ok (read i)
  pub counted : (i : ℕ) → i < history_len e → length (read i) ≡ (bundle i).list_len
  pub first : 0 < history_len e → (bundle 0).offset ≡ 0

-- The transactions of the first bundles, the newest first.
abbrev pub newest : (ℕ → List Tx) → ℕ → List Tx
newest read zero = []
newest read (suc i) = read i ++ newest read i

-- How many they are.
abbrev pub settled_by : (ℕ → TxBundle) → ℕ → ℕ
settled_by bundle zero = 0
settled_by bundle (suc i) = (bundle i).offset + (bundle i).list_len

slice_vec-take :
    (n : ℕ) (txs : List Tx) (from to : ℕ)
    → to ≡ from + n
    → to ≤ length txs
    → slice_vec from to txs ≡ ok (take n (drop from txs))
unfolding slice_vec
slice_vec-take n txs from to e h = let d : to - from ≡ n = omega arith in ground (arith, d)

slice_from-drop :
    (from : ℕ) (txs : List Tx) → from ≤ length txs → slice_from from txs ≡ ok (drop from txs)
unfolding slice_from
slice_from-drop from txs h = ground arith

zero_or_suc : (n : ℕ) → (n ≡ 0) ⊎ ((m : ℕ) × (n ≡ suc m))
zero_or_suc zero = inl refl
zero_or_suc (suc m) = inr (m, refl)

module _ {p : Platform} {s : Storage} {e : StoredEntry} {bundle : ℕ → TxBundle} {read : ℕ → List Tx}
    (h : IsHistory s e bundle) (r : IsRead p s e bundle read) where
  step_last :
      (i left : ℕ)
      → i < history_len e
      → left ≤ (bundle i).list_len
      → bundle_step p (bundle i) left s ≡ ok (true, left, take left (read i))
  unfolding bundle_step
  step_last i left lt fits =
      let head = r.heads i lt in
      let read_i = r.lists i lt in
      let part =
        slice_vec-take left (read i) 0 left (omega arith) (omega (arith, r.counted i lt)) in
      ground (arith, head, read_i, part)

  step_on :
      (i left : ℕ)
      → i < history_len e
      → (bundle i).list_len < left
      → bundle_step p (bundle i) left s ≡ ok (false, left - (bundle i).list_len, read i)
  unfolding bundle_step
  step_on i left lt more =
      let head = r.heads i lt in let read_i = r.lists i lt in ground (arith, head, read_i)

  -- The loop takes from the bundles down to the first one.
  pub back_loop-newest :
      (i left : ℕ)
      → i < history_len e
      → back_loop p e i left s ≡ ok (take left (newest read (suc i)))
  unfolding back_loop
  back_loop-newest zero left lt =
      let at = h.stored 0 lt in
      let n = r.counted 0 lt in
      elim (Bool-cases (leb left (bundle 0).list_len)) [
        | inl fits ↦
            let step = step_last 0 left lt (ground arith) in
            let part = take_within left (read 0) [] (ground (arith, n)) in
            ground (arith, at, step, part)
        | inr more ↦
            let step = step_on 0 left lt (ground arith) in
            let whole = take_all left (read 0) (ground (arith, n)) in
            let none_older = append_nil (read 0) in ground (arith, at, step, whole, none_older)
      ]
  back_loop-newest (suc i) left lt =
      let at = h.stored (suc i) lt in
      let n = r.counted (suc i) lt in
      elim (Bool-cases (leb left (bundle (suc i)).list_len)) [
        | inl fits ↦
            let step = step_last (suc i) left lt (ground arith) in
            let part = take_within left (read (suc i)) (newest read (suc i)) (ground (arith, n)) in
            ground (arith, at, step, part)
        | inr more ↦
            let step = step_on (suc i) left lt (ground arith) in
            let rest = back_loop-newest i (left - (bundle (suc i)).list_len) (omega arith) in
            let part =
              take_beyond left (left - (bundle (suc i)).list_len) (read (suc i))
                (newest read (suc i)) (ground (arith, n)) in
            ground (arith, at, step, rest, part)
      ]

  behind_first-newest :
      (i left : ℕ)
      → i ≤ history_len e
      → behind_first p (some e) i left s ≡ ok (take left (newest read i))
  unfolding behind_first
  behind_first-newest zero left lt = ap ok (sym (take_nil left))
  behind_first-newest (suc i) left lt = elim (Bool-cases (left == 0)) [
    | inl zero_left ↦ ground arith
    | inr some_left ↦ let rest = back_loop-newest i left (omega arith) in ground (arith, rest)
  ]

  -- From the place of the search's answer on.
  from_bundle-newest :
      (i start_at start end left : ℕ)
      → i < history_len e
      → start_at ≤ (bundle i).list_len
      → end ≡ start + left
      → start_at + left ≤ u32_max
      → from_bundle p (some e) (i, bundle i, start_at) start end s
        ≡ ok (take left (drop start_at (newest read (suc i))))
  unfolding from_bundle
  from_bundle-newest i start_at start end left lt at_most q fits =
      let n = r.counted i lt in
      let head = r.heads i lt in
      let read_i = r.lists i lt in
      let d : end - start ≡ left = omega arith in
      let split = drop_within start_at (read i) (newest read i) (omega arith) in
      let size = length-drop start_at (read i) in
      elim (Bool-cases (leb (start_at + left) (bundle i).list_len)) [
        | inl inside ↦
            let in_bundle : start_at + left ≤ length (read i) = ground (arith, n) in
            let part = slice_vec-take left (read i) start_at (start_at + left) refl in_bundle in
            let same = take_within left (drop start_at (read i)) (newest read i) (omega arith) in
            ground (arith, d, head, read_i, part, same, split)
        | inr beyond ↦
            let over : (bundle i).list_len < start_at + left = ground arith in
            let first = slice_from-drop start_at (read i) (omega arith) in
            let rest = (bundle i).list_len - start_at in
            let older = behind_first-newest i (left - rest) (omega arith) in
            let same =
              take_beyond left (left - rest) (drop start_at (read i)) (newest read i)
                (omega arith) in
            ground (arith, d, head, read_i, first, older, same, split)
      ]

  starts_where_ends : (i : ℕ) → i < history_len e → (bundle i).offset ≡ settled_by bundle i
  starts_where_ends zero lt = r.first lt
  starts_where_ends (suc i) lt = h.contiguous i lt

  -- The bundle that holds the transaction at place `k` of the newest `m` bundles.
  place_of :
      (m k : ℕ)
      → m ≤ history_len e
      → k < settled_by bundle m
      → (i : ℕ) × (i < m)
        × Within (settled_by bundle m - k - 1) (bundle i)
        × (drop k (newest read m)
            ≡ drop
                ((bundle i).list_len - (settled_by bundle m - k - 1 - (bundle i).offset) - 1)
                (newest read (suc i)))
  place_of zero k le lt = absurd (omega arith)
  place_of (suc j) k le lt =
      let n = r.counted j (omega arith) in
      let off = starts_where_ends j (omega arith) in
      elim (Bool-cases (ltb k (bundle j).list_len)) [
        | inl here ↦
            let near : k < (bundle j).list_len = ground arith in
            let place : (bundle j).list_len
                  - (settled_by bundle (suc j) - k - 1 - (bundle j).offset)
                  - 1
                ≡ k =
              omega arith in
            (j, omega arith, (omega arith, omega arith), rw place refl)
        | inr further ↦
            let far : (bundle j).list_len ≤ k = ground arith in
            let k' = k - (bundle j).list_len in
            let (i, below, within, same) = place_of j k' (omega arith) (omega arith) in
            let idx : settled_by bundle j - k' - 1 ≡ settled_by bundle (suc j) - k - 1 =
              omega arith in
            let over = drop_beyond k k' (read j) (newest read j) (omega arith) in
            (i, omega arith, rw (← idx) within, rw (← idx) (over ∙ same))
      ]

  from_buffer-newest :
      (dwb_txs : List Tx) (start end left : ℕ)
      → start ≤ length dwb_txs
      → end ≡ start + left
      → length dwb_txs ≤ end
      → end ≤ length dwb_txs + settled_by bundle (history_len e)
      → from_buffer p dwb_txs (some e) start end s
        ≡ ok (take left (drop start (dwb_txs ++ newest read (history_len e))))
  unfolding from_buffer
  from_buffer-newest dwb_txs start end left begins q behind within =
      let first = slice_from-drop start dwb_txs begins in
      let d : end - start ≡ left = omega arith in
      let size = length-drop start dwb_txs in
      let m = left - length (drop start dwb_txs) in
      let split = drop_within start dwb_txs (newest read (history_len e)) begins in
      let same =
        take_beyond left m (drop start dwb_txs) (newest read (history_len e)) (omega arith) in
      elim (zero_or_suc (history_len e)) [
        | inl nothing ↦
            let closes : end ≤ length dwb_txs + 0 = rw nothing at within in
            let whole = take_all left (drop start dwb_txs) (omega arith) in
            let part = take_within left (drop start dwb_txs) [] (omega arith) in
            ground (arith, first, d, nothing, split, whole, part)
        | inr (last, some_history) ↦
            let older = back_loop-newest last m (omega arith) in
            ground (arith, first, d, older, some_history, same, split)
      ]

  module _ (account_raw : Bytes) {node : BitwiseTrieNode} {node_id bit_pos place : ℕ}
      {bucket : BtbeBucket}
      (located : locate_btbe_node p account_raw s ≡ ok (node, node_id, bit_pos))
      (loaded : node_bucket node s ≡ ok bucket)
      (found : constant_time_find_address p bucket account_raw ≡ ok (some (place, e))) where
    from_history-newest :
        (buffered start end left : ℕ)
        → buffered ≤ start
        → end ≡ start + left
        → start < buffered + settled_by bundle (history_len e)
        → end ≤ buffered + settled_by bundle (history_len e)
        → from_history p account_raw
            (some e)
            buffered
            (settled_by bundle (history_len e))
            start
            end
            s
          ≡ ok (take left (drop (start - buffered) (newest read (history_len e))))
    unfolding from_history
    from_history-newest buffered start end left behind q begins within =
        let k = start - buffered in
        let (i, lt, (lo, hi), same) = place_of (history_len e) k (omega arith) (omega arith) in
        let idx = settled_by bundle (history_len e) - k - 1 in
        let search =
          find_start_bundle_exact p account_raw s bundle located loaded found idx i h lt (lo, hi) in
        let fits = h.fits i lt in
        let start_at = (bundle i).list_len - (idx - (bundle i).offset) - 1 in
        let part = from_bundle-newest i start_at start end left lt (omega arith) q (omega arith) in
        ground (arith, search, part, same)

    -- A page that begins before the end, and ends by it, is that part of the transactions in the buffer
    -- followed by those in the history, all the newest first.
    pub page_txs_exact :
        (dwb_txs given : List Tx) (start end left : ℕ)
        → (start < length dwb_txs → given ≡ dwb_txs)
        → end ≡ start + left
        → start < length dwb_txs + settled_by bundle (history_len e)
        → end ≤ length dwb_txs + settled_by bundle (history_len e)
        → page_txs p account_raw
            (some e)
            given
            (length dwb_txs)
            (settled_by bundle (history_len e))
            start
            end
            s
          ≡ ok (take left (drop start (dwb_txs ++ newest read (history_len e))))
    unfolding page_txs
    page_txs_exact dwb_txs given start end left is q begins within =
        elim (Bool-cases (ltb start (length dwb_txs))) [
          | inl in_buffer ↦
              let now : start < length dwb_txs = ground arith in
              let g = is now in
              elim (Bool-cases (ltb end (length dwb_txs))) [
                | inl ends ↦
                    let before : end < length dwb_txs = ground arith in
                    let all = newest read (history_len e) in
                    let part = slice_vec-take left dwb_txs start end q (omega arith) in
                    let split = drop_within start dwb_txs all (omega arith) in
                    let size = length-drop start dwb_txs in
                    let same = take_within left (drop start dwb_txs) all (omega arith) in
                    ground (arith, in_buffer, ends, g, part, split, same)
                | inr goes_on ↦
                    let part =
                      from_buffer-newest dwb_txs start end left (omega arith) q (ground arith)
                        within in
                    ground (arith, in_buffer, goes_on, g, part)
              ]
          | inr in_history ↦
              let behind : length dwb_txs ≤ start = ground arith in
              let part =
                from_history-newest (length dwb_txs) start end left behind q begins within in
              let over =
                drop_beyond start (start - length dwb_txs) dwb_txs (newest read (history_len e))
                  (omega arith) in
              ground (arith, in_history, part, over)
        ]

    -- A page that begins behind the last transaction is not empty but an overflow, as the number of its
    -- transactions is taken as its end, cut to that of all transactions, less its start.
    pub page_txs_past_end :
        (buffered start : ℕ) (given : List Tx)
        → 0 < history_len e
        → 0 < (bundle 0).list_len
        → buffered + settled_by bundle (history_len e) < start
        → page_txs p account_raw
            (some e)
            given
            buffered
            (settled_by bundle (history_len e))
            start
            (buffered + settled_by bundle (history_len e))
            s
          ≡ err overflow
    unfolding page_txs from_history from_bundle
    page_txs_past_end buffered start given some_history counts past =
        let first = r.first some_history in
        let search =
          find_start_bundle_exact p account_raw s bundle located loaded found 0 0 h some_history
            (omega arith, omega arith) in
        let idx : settled_by bundle (history_len e) - (start - buffered) - 1 ≡ 0 = omega arith in
        ground (arith, search, idx)
