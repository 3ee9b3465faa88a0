-- ===== src/Btbe/Settle/Ledger.antt =====
-- `settle_dwb_entry` as a change to the balances that the trie holds.
use mathlib.Core.Path.{fun_ext}
use snip20_reference_impl.Common.{
  ℕ, ◌-◌, ◌≤◌, ◌≡◌, ◌≢◌, refl, ap, sym, ◌∙◌, Option, some, some-injective, inl, inr, List, [], ◌∷◌,
  arith, Bool-cases, ◌==◌, set, get_elem?_bound, if◌then◌else◌,
}
use snip20_reference_impl.Common.Bytes.{Bytes, bytes_eq, bytes_eq_iff}
use snip20_reference_impl.Outcome.{Result, Result-cases, ok, err, out_of_fuel}
use snip20_reference_impl.Word.{u64_max, saturating_add}
use snip20_reference_impl.Platform.{Platform, Documented}
use snip20_reference_impl.State.{Storage, update}
use snip20_reference_impl.Dwb.Entry as Pending
use snip20_reference_impl.Dwb.Entry.{DwbEntry}
use snip20_reference_impl.Dwb.Entry.Fields as Pending_fields
use snip20_reference_impl.Dwb.Entry.Fields.{IsEntry}
use snip20_reference_impl.Btbe.Types.{BtbeBucket}
use snip20_reference_impl.Btbe.Entry.{StoredEntry, address, balance, impossible_addr}
use snip20_reference_impl.Btbe.Bucket.Matches.{bytes_eq_same}
use snip20_reference_impl.Btbe.Bucket.Invariant.{IsBucket, find_none, find_one, set-IsBucket}
use snip20_reference_impl.Btbe.History.{merge_dwb_entry, from_dwb_entry}
use snip20_reference_impl.Btbe.History.Balance.{spent_of, merge_dwb_entry-Does, from_dwb_entry-Does}
use snip20_reference_impl.Btbe.Trie.{locate_btbe_node}
use snip20_reference_impl.Btbe.Trie.Invariant.{
  IsTrie, Has, hash_of, Ledger, balance_in, Walk-leaf, Ending-stored, locate-Ending,
}
use snip20_reference_impl.Btbe.Settle.{settle_dwb_entry, insert_fuel}
use snip20_reference_impl.Btbe.Settle.Rewrite.{
  TriePart, trie_part, Rewrites, rewrite-Ending, rewrite-Has, rewrite-Has_here, rewrite-IsTrie,
}
use snip20_reference_impl.Btbe.Settle.Insert.{Inserted, insert_loop-Inserted}
use snip20_reference_impl.Btbe.Settle.Steps.{
  save_hash_cache-eq, found_runs, found_fails, new_runs, new_fails,
}

-- The balances after an entry of the buffer has been settled and `spent` has gone off.
abbrev pub credited : DwbEntry → Option ℕ → (Bytes → ℕ) → Bytes → ℕ
credited d spent held a =
    if bytes_eq (Pending.recipient d) a
    then saturating_add u64_max (held a) (Pending.amount d) - spent_of spent
    else held a

-- The trie is sound and has the new balances, or there is an error, which is no lack of fuel.
abbrev pub Settled :
    {p : Platform}
    → Documented p
    → Bytes
    → DwbEntry
    → Option ℕ
    → (Bytes → ℕ)
    → Result (Unit {0} × Storage)
    → Type 0
Settled {p} doc secret d spent held (ok (u, s')) =
    IsTrie p secret s'
    × Ledger doc secret s' (credited d spent held)
    × (spent_of spent ≤ saturating_add u64_max (held (Pending.recipient d)) (Pending.amount d))
Settled doc secret d spent held (err x) = x ≢ out_of_fuel

update_self :
    (f : ℕ → Option BtbeBucket) (k : ℕ) {b : BtbeBucket}
    → f k ≡ some b
    → (i : ℕ) → update f k b i ≡ f i
update_self f k {b} h i = elim (Bool-cases (k == i)) [
  | inl here ↦ let e : k ≡ i = ground arith in rw here (sym h ∙ ap f e)
  | inr other ↦ rw other refl
]

module _ (p : Platform) (doc : Documented p) (secret : Bytes) (d : DwbEntry) (spent : Option ℕ)
    (wd : IsEntry d) (ne : Pending.recipient d ≢ impossible_addr) {s : Storage} (held : Bytes → ℕ)
    (t : IsTrie p secret s) (ledger : Ledger doc secret s held) where
  -- The balances follow from the entries of the recipient, the others' being kept.
  credited-Ledger :
      {s' : Storage} {e : StoredEntry}
      → ((a : Bytes) (es : List StoredEntry)
          → a ≢ impossible_addr
          → Pending.recipient d ≢ a
          → Has s (hash_of doc secret a) a es
          → Has s' (hash_of doc secret a) a es)
      → Has s' (hash_of doc secret (Pending.recipient d)) (Pending.recipient d) (e ∷ [])
      → balance e
        ≡ saturating_add u64_max (held (Pending.recipient d)) (Pending.amount d) - spent_of spent
      → Ledger doc secret s' (credited d spent held)
  credited-Ledger {s'} {e} others own new_balance a ne_a =
      elim (Bool-cases (bytes_eq (Pending.recipient d) a)) [
        | inl hit ↦
            let same : Pending.recipient d ≡ a = (bytes_eq_iff (Pending.recipient d) a).0 hit in
            let here : Has s' (hash_of doc secret a) a (e ∷ []) = rw same at own in
            (e ∷ [], here, ground (arith, new_balance, same))
        | inr miss ↦
            let other : Pending.recipient d ≢ a =
              λ q. cc (bytes_eq_same (Pending.recipient d) a (sym q)) in
            let (es, h, v) = ledger a ne_a in (es, others a es ne_a other h, ground arith)
      ]

  module _ {es : List StoredEntry}
      (h : Has s (hash_of doc secret (Pending.recipient d)) (Pending.recipient d) es)
      (known : balance_in es ≡ held (Pending.recipient d)) where
    leaf_h : h.last.bucket ≢ 0
    leaf_h = Walk-leaf h.ending.walk

    located_h : locate_btbe_node p (Pending.recipient d) s ≡ ok (h.last, h.id, h.pos)
    located_h = locate-Ending p doc secret (Pending.recipient d) t.secret_stored h.ending

    sound_h : IsBucket p h.bucket
    sound_h =
        let (b', loaded', wb') = t.leaves h.id h.last (Ending-stored t h.ending) leaf_h in
        rw (some-injective b' h.bucket (sym loaded' ∙ h.loaded)) at wb'

    settle_found_case :
        (e : StoredEntry)
        → es ≡ e ∷ []
        → Settled doc secret d spent held (settle_dwb_entry p d spent s)
    settle_found_case e one =
        let only = h.entries ∙ one in
        let (i, found, g, own) = find_one p doc h.bucket (Pending.recipient d) e only in
        let w_e = sound_h.stored i e g in
        let holds : balance e ≡ held (Pending.recipient d) = sym (ap balance_in one) ∙ known in
        let outcome = (merge_dwb_entry-Does d spent e w_e).does s in
        elim (Result-cases (merge_dwb_entry d spent e s)) [
          | inr (x, q) ↦
              rw (found_fails p d spent s located_h leaf_h h.loaded found q) (rw q at outcome)
          | inl ((e', s1), q) ↦
              let (kept, (fits, booked)) = rw q at outcome in
              let k = h.last.bucket in
              let b' : BtbeBucket = record h.bucket { entries = set h.bucket.entries i e' } in
              let s' : Storage = record s1 { btbe_buckets = update s1.btbe_buckets k b' } in
              let w : Rewrites s s' k b' = record {
                part = ap (λ (x : TriePart). record x { buckets = update x.buckets k b' }) kept;
              } in
              let (wb', others, mine) =
                set-IsBucket p h.bucket sound_h i e e' g (λ z. ne (sym own ∙ z)) booked.owned
                  booked.sound (rw (← own) at only) in
              rw
                (found_runs p d spent s located_h leaf_h h.loaded found
                  (get_elem?_bound h.bucket.entries i g) q)
                (
                  rewrite-IsTrie w wb' t,
                  credited-Ledger
                      (λ a es' ne_a other h'.
                        rewrite-Has w h.loaded (others a (λ z. other (sym own ∙ z))) h')
                      (rewrite-Has_here w h.ending refl (rw own at mine))
                      (rw holds at booked.holds),
                  rw holds at fits,
                )
        ]

    -- A storage with the same trie.
    same_trie : {s1 : Storage} → trie_part s1 ≡ trie_part s → Rewrites s s1 h.last.bucket h.bucket
    same_trie kept = record {
      part =
          kept
          ∙ ap (λ bs. record (trie_part s) { buckets = bs })
              (sym (fun_ext (update_self s.btbe_buckets h.last.bucket h.loaded)));
    }

    -- From the outcome of the loop.
    Inserted-Settled :
        (s1 : Storage) (e : StoredEntry) (r : Result (Unit {0} × Storage))
        → trie_part s1 ≡ trie_part s
        → address e ≡ Pending.recipient d
        → balance e
          ≡ saturating_add u64_max (held (Pending.recipient d)) (Pending.amount d) - spent_of spent
        → spent_of spent ≤ saturating_add u64_max (held (Pending.recipient d)) (Pending.amount d)
        → Inserted doc secret s1 e r
        → Settled doc secret d spent held r
    Inserted-Settled s1 e (ok (u, s')) kept own booked fits (t', others, mine) = (
      t',
      credited-Ledger
          (λ a es' ne_a other h'.
            others a es' ne_a (λ z. other (sym own ∙ z))
              (rewrite-Has (same_trie kept) h.loaded refl h'))
          (rw own at mine) booked,
      fits,
    )
    Inserted-Settled s1 e (err x) kept own booked fits (inl over) = λ q. cc
    Inserted-Settled s1 e (err x) kept own booked fits (inr behind) = λ q. cc

    settle_new_case : es ≡ [] → Settled doc secret d spent held (settle_dwb_entry p d spent s)
    settle_new_case nothing =
        let a = Pending.recipient d in
        let absent = h.entries ∙ nothing in
        let found = find_none p doc h.bucket a absent in
        let holds : 0 ≡ held a = sym (ap balance_in nothing) ∙ known in
        let (n, small, heads, lens) = Pending_fields.view_bounds d wd in
        let sum : Pending.amount d ≡ saturating_add u64_max (held a) (Pending.amount d) =
          ground (arith, holds) in
        let outcome = (from_dwb_entry-Does d spent wd).does s in
        elim (Result-cases (from_dwb_entry d spent s)) [
          | inr (x, q) ↦
              rw (new_fails p d spent s located_h leaf_h h.loaded found q) (rw q at outcome)
          | inl ((e, s1), q) ↦
              let (kept, (fits, booked)) = rw q at outcome in
              let secret1 : s1.internal_secret_sensitive ≡ some secret =
                ap (λ (x : TriePart). x.secret) kept ∙ t.secret_stored in
              let runs =
                new_runs p d spent s located_h leaf_h h.loaded found q
                  (save_hash_cache-eq p doc e s1 secret1) secret1 in
              let own = booked.owned in
              let w = same_trie kept in
              let inserted =
                insert_loop-Inserted p doc secret e booked.sound (λ z. ne (sym own ∙ z)) insert_fuel
                  s1 h.last h.id h.pos h.bucket (rewrite-IsTrie w sound_h t) (omega arith)
                  (rw (← own) at (rewrite-Ending w h.ending))
                  (ap (λ (x : TriePart). x.buckets h.last.bucket) kept ∙ h.loaded)
                  (rw (← own) at absent) in
              rw runs (
                Inserted-Settled s1 e _ kept own (rw sum at booked.holds) (rw sum at fits) inserted)
        ]

-- Settling an entry of the buffer for an account.
pub settle_dwb_entry-Settled :
    (p : Platform) (doc : Documented p) (secret : Bytes) (d : DwbEntry) (spent : Option ℕ)
    (s : Storage) (held : Bytes → ℕ)
    → IsEntry d
    → Pending.recipient d ≢ impossible_addr
    → IsTrie p secret s
    → Ledger doc secret s held
    → Settled doc secret d spent held (settle_dwb_entry p d spent s)
settle_dwb_entry-Settled p doc secret d spent s held wd ne t ledger =
    let a = Pending.recipient d in
    let (es, h, known) = ledger a ne in
    let single = (sound_h p doc secret d spent wd ne held t ledger h known).single a ne in
    elim single [
      | inl absent ↦
          settle_new_case p doc secret d spent wd ne held t ledger h known (sym h.entries ∙ absent)
      | inr (e, one) ↦
          settle_found_case p doc secret d spent wd ne held t ledger h known e (sym h.entries ∙ one)
    ]
