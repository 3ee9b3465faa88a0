-- ===== src/Btbe/History/Extends.antt =====
-- Merging keeps the history of an account contiguous.
use snip20_reference_impl.Common.{
  ℕ, suc, ◌+◌, ◌-◌, ◌^◌, ◌<◌, ◌≤◌, ◌≡◌, ◌≢◌, refl, ap, inl, inr, Option, arith, ◌==◌, if◌then◌else◌,
  Bool-cases,
}
use snip20_reference_impl.Common.Bytes.{bytes_eq_iff}
use snip20_reference_impl.Outcome.{ok}
use snip20_reference_impl.Word.{u32_max, u64_max, saturating_add}
use snip20_reference_impl.State.{Storage}
use snip20_reference_impl.Dwb.Types.{TxBundle}
use snip20_reference_impl.Dwb.Entry as Pending
use snip20_reference_impl.Dwb.Entry.{DwbEntry}
use snip20_reference_impl.Btbe.Entry.{StoredEntry, address, balance, history_len}
use snip20_reference_impl.Btbe.Entry.Fields.{IsStoredEntry, View}
use snip20_reference_impl.Btbe.Bundles.{amount_u64, get_tx_bundle_at, get_tx_bundle_at_unchecked}
use snip20_reference_impl.Btbe.History.{merge_dwb_entry}
use snip20_reference_impl.Btbe.History.Merge.{with_bundle, merged_bundle, merge_dwb_entry_exact}
use snip20_reference_impl.Btbe.Trie.Search.{IsHistory}

-- The bundles with one more behind the first `n`.
abbrev pub extend : ℕ → (ℕ → TxBundle) → TxBundle → ℕ → TxBundle
extend n bundles new i = if i == n then new else bundles i

module _ (s : Storage) (e e' : StoredEntry) (n : ℕ) (bundles : ℕ → TxBundle) (new : TxBundle) where
  extend-stored :
      address e' ≡ address e
      → history_len e ≡ n
      → history_len e' ≡ n + 1
      → IsHistory s e bundles
      → (i : ℕ) → i < n + 1
      → get_tx_bundle_at e' i (with_bundle s (address e) n new) ≡ ok (extend n bundles new i)
  unfolding get_tx_bundle_at get_tx_bundle_at_unchecked
  extend-stored ea en en' h i lt = elim (Bool-cases (i == n)) [
    | inl last ↦ ground (arith, ea, en', (bytes_eq_iff (address e) (address e)).1 refl)
    | inr other ↦
        let old = h.stored i (ground (arith, en)) in
        ground (arith, ea, en, en', old, (bytes_eq_iff (address e) (address e)).1 refl)
  ]

  extend-IsHistory :
      address e' ≡ address e
      → history_len e ≡ n
      → history_len e' ≡ n + 1
      → 0 < n
      → n + 1 < 2 ^ 31
      → new.offset ≡ (bundles (n - 1)).offset + (bundles (n - 1)).list_len
      → new.offset + new.list_len ≤ u32_max
      → IsHistory s e bundles
      → IsHistory (with_bundle s (address e) n new) e' (extend n bundles new)
  extend-IsHistory ea en en' pos short next fits h = record {
    stored = λ i lt. extend-stored ea en en' h i (omega (arith, en'));
    contiguous = λ i lt. elim (Bool-cases (suc i == n)) [
      | inl last ↦
          let i_last : i ≡ n - 1 = ground arith in
          ground (arith, en', ap (λ k. (bundles k).offset + (bundles k).list_len) i_last)
      | inr other ↦ ground (arith, en, en', h.contiguous i (ground (arith, en, en')))
    ];
    fits = λ i lt. elim (Bool-cases (i == n)) [
      | inl last ↦ ground arith
      | inr other ↦ ground (arith, en, en', h.fits i (ground (arith, en, en')))
    ];
    short = omega (arith, en');
  }

-- An entry of the buffer that has transactions and that is merged into an entry with a contiguous
-- history: the balance is the sum with the amount spent taken from it, the history has one more
-- bundle, which holds the list of transactions and begins where the last one ends, and the history
-- is contiguous again. The conditions are the bounds of the words and that the amount is there.
pub merge_dwb_entry-IsHistory :
    (d : DwbEntry) (spent : Option ℕ) (e : StoredEntry) (s : Storage) (x : ℕ)
    (bundles : ℕ → TxBundle)
    → IsStoredEntry e
    → IsHistory s e bundles
    → 0 < history_len e
    → history_len e + 1 < 2 ^ 31
    → Pending.amount d < 2 ^ 64
    → Pending.head_node d ≢ 0
    → amount_u64 spent ≡ ok x
    → x ≤ saturating_add u64_max (balance e) (Pending.amount d)
    → let n = history_len e in
      let new = merged_bundle d (bundles (n - 1)) in
      new.offset + new.list_len ≤ u32_max
      → (e' : StoredEntry) × (s' : Storage) × (merge_dwb_entry d spent e s ≡ ok (e', s'))
        × (address e' ≡ address e)
        × (balance e' ≡ saturating_add u64_max (balance e) (Pending.amount d) - x)
        × IsHistory s' e' (extend n bundles new)
merge_dwb_entry-IsHistory d spent e s x bundles w h pos short small head sp enough fits =
    let n = history_len e in
    let last = bundles (n - 1) in
    let new = merged_bundle d last in
    let (e', q, v) =
      merge_dwb_entry_exact d spent e s x last w small head pos (omega arith) sp enough
        (h.stored (n - 1) (omega arith)) (h.fits (n - 1) (omega arith)) in
    let ea : address e' ≡ address e = ap (λ (u : View). u.address) v in
    let len : history_len e' ≡ n + 1 = ap (λ (u : View). u.history_len) v in
    (
      e',
      with_bundle s (address e) n new,
      q,
      ea,
      ap (λ (u : View). u.balance) v,
      extend-IsHistory s e e' n bundles new ea refl len pos short refl fits h,
    )
