-- ===== src/Btbe/Trie/Search.antt =====
-- The binary search of `find_start_bundle` over a history of bundles that follow one another.
use snip20_reference_impl.Common.{
  ℕ, zero, suc, ◌+◌, ◌-◌, ◌/◌, ◌^◌, ◌<◌, ◌≤◌, ◌≡◌, ◌⊎◌, inl, inr, some, arith,
}
use snip20_reference_impl.Common.Bytes.{Bytes}
use snip20_reference_impl.Platform.{Platform}
use snip20_reference_impl.Outcome.{ok}
use snip20_reference_impl.Word.{u32_max}
use snip20_reference_impl.Dwb.Types.{TxBundle}
use snip20_reference_impl.State.{Storage}
use snip20_reference_impl.Btbe.Entry.{StoredEntry, history_len}
use snip20_reference_impl.Btbe.Bundles.{get_tx_bundle_at}
use snip20_reference_impl.Btbe.Types.{BtbeBucket, BitwiseTrieNode}
use snip20_reference_impl.Btbe.Bucket.{constant_time_find_address}
use snip20_reference_impl.Btbe.Trie.{search_loop, locate_btbe_node, node_bucket, find_start_bundle}

-- The history of `e` is `bundle`: each bundle is stored and begins where the one before ends, and
-- positions and transactions are counted in u32 numbers.
pub record IsHistory (s : Storage) (e : StoredEntry) (bundle : ℕ → TxBundle) : Type 0 where
  pub stored : (i : ℕ) → i < history_len e → get_tx_bundle_at e i s ≡ ok (bundle i)
  pub contiguous :
      (i : ℕ)
      → suc i < history_len e
      → (bundle (suc i)).offset ≡ (bundle i).offset + (bundle i).list_len
  pub fits : (i : ℕ) → i < history_len e → (bundle i).offset + (bundle i).list_len ≤ u32_max
  pub short : history_len e < 2 ^ 31

lt_cases : (a b : ℕ) → (a < b) ⊎ ((a ≡ b) ⊎ (b < a))
lt_cases a b = grind arith

-- Transaction `idx` lies in a bundle.
abbrev pub Within : ℕ → TxBundle → Type 0
Within idx b = (b.offset ≤ idx) × (idx < b.offset + b.list_len)

module _ {s : Storage} {e : StoredEntry} {bundle : ℕ → TxBundle} (h : IsHistory s e bundle) where
  -- An earlier bundle ends before a later one begins.
  end-le-offset :
      (i k j : ℕ)
      → suc (i + k) ≡ j
      → j < history_len e
      → (bundle i).offset + (bundle i).list_len ≤ (bundle j).offset
  end-le-offset i zero j q lt =
      let q' : j ≡ suc i = omega arith in rw q' (omega (arith, h.contiguous i (omega arith)))
  end-le-offset i (suc k) zero q lt = absurd (omega arith)
  end-le-offset i (suc k) (suc j) q lt =
      omega (arith, end-le-offset i k j (omega arith) (omega arith), h.contiguous j lt)

  before :
      (i j : ℕ)
      → i < j
      → j < history_len e
      → (bundle i).offset + (bundle i).list_len ≤ (bundle j).offset
  before i j lt fit = end-le-offset i (j - suc i) j (omega arith) fit

  -- The middle bundle holds the transaction.
  search_hit :
      (fuel idx left right : ℕ)
      → left ≤ right
      → (left + right) / 2 < history_len e
      → Within idx (bundle ((left + right) / 2))
      → let mid = (left + right) / 2 in
        search_loop (suc fuel) e idx left right s
        ≡ ok (some (mid, bundle mid, (bundle mid).list_len - (idx - (bundle mid).offset) - 1))
  unfolding search_loop
  search_hit fuel idx l r lo m w =
      let mid = (l + r) / 2 in
      let short = h.short in let fit = h.fits mid m in ground (arith, h.stored mid m)

  search_loop_finds :
      (fuel idx target left right : ℕ)
      → target < history_len e
      → Within idx (bundle target)
      → left ≤ target
      → target ≤ right
      → right ≤ history_len e
      → right + 1 < left + fuel
      → search_loop fuel e idx left right s
        ≡ ok (
            some (
              target,
              bundle target,
              (bundle target).list_len - (idx - (bundle target).offset) - 1,
            ))
  unfolding search_loop
  search_loop_finds zero idx t l r a w lo hi top f = absurd (omega arith)
  search_loop_finds (suc fuel) idx t l r a w lo hi top f =
      let mid = (l + r) / 2 in
      let short = h.short in
      let m : mid < history_len e = omega arith in
      let fit = h.fits mid m in
      let at = h.stored mid m in
      elim (lt_cases mid t) [
        | inl below ↦
            let past = before mid t below a in
            ground (
              arith,
              at,
              search_loop_finds fuel idx t (mid + 1) r a w (omega arith) hi top (omega arith),
            )
        | inr (inl same) ↦ rw same at (search_hit fuel idx l r (omega arith) m (rw same w))
        | inr (inr above) ↦
            let past = before t mid above m in
            ground (
              arith,
              at,
              search_loop_finds fuel idx t l (mid - 1) a w lo (omega arith) (omega arith)
                  (omega arith),
            )
      ]

module _ (p : Platform) (account : Bytes) (s : Storage) (bundle : ℕ → TxBundle)
    {node : BitwiseTrieNode} {node_id bit_pos place : ℕ} {bucket : BtbeBucket} {e : StoredEntry}
    (located : locate_btbe_node p account s ≡ ok (node, node_id, bit_pos))
    (loaded : node_bucket node s ≡ ok bucket)
    (found : constant_time_find_address p bucket account ≡ ok (some (place, e))) where
  -- For an account with a stored entry whose bundles follow one another, `find_start_bundle` ends and
  -- gives the bundle that holds the transaction, with its place counted from the list's head.
  pub find_start_bundle_exact :
      (idx target : ℕ)
      → IsHistory s e bundle
      → target < history_len e
      → Within idx (bundle target)
      → find_start_bundle p account idx s
        ≡ ok (
            some (
              target,
              bundle target,
              (bundle target).list_len - (idx - (bundle target).offset) - 1,
            ))
  unfolding find_start_bundle
  find_start_bundle_exact idx target h lt w = ground (
    arith,
    located,
    loaded,
    found,
    search_loop_finds h (history_len e + 2) idx target 0 (history_len e) lt w (omega arith)
        (omega arith) (omega arith) (omega arith),
  )
