-- ===== src/Btbe/History/Balance.antt =====
-- What a merge and a new entry book: the balance after them, and that they leave the trie alone.
use snip20_reference_impl.Common.{
  ℕ, ◌+◌, ◌-◌, ◌^◌, ◌<◌, ◌≤◌, ◌≡◌, ◌≢◌, refl, ap, ◌∙◌, Option, none, some, inl, inr, arith, length,
  All, Bool-cases, ◌==◌, leb, ltb,
}
use snip20_reference_impl.Common.Bytes.{Bytes, IsByte, slice-IsByte}
use snip20_reference_impl.Outcome.{
  Error, Result-cases, or_err, out_of_fuel, insufficient_funds_creating, insufficient_funds_merging,
}
use snip20_reference_impl.Word.{
  u64_max, u32_max, saturating_add, checked_sub, add_word, bool_word, wrapping_sub_u32,
}
use snip20_reference_impl.ConstantTime.{constant_time_if_else_u32}
use snip20_reference_impl.State.{Storage}
use snip20_reference_impl.State.Supply.{safe_add_u64}
use snip20_reference_impl.State.Does.{
  Good, Does, bind-Does, lift-Does, reads-Does, pure-Does, weaken-Does,
}
use snip20_reference_impl.Dwb.Types.{TxBundle}
use snip20_reference_impl.Dwb.Entry as Pending
use snip20_reference_impl.Dwb.Entry.{DwbEntry}
use snip20_reference_impl.Dwb.Entry.Fields as Pending_fields
use snip20_reference_impl.Dwb.Entry.Fields.{IsEntry}
use snip20_reference_impl.Btbe.Entry.{
  StoredEntry, new, address, balance, set_balance, history_len, set_history_len,
}
use snip20_reference_impl.Btbe.Entry.Fields.{
  IsStoredEntry, View, view-set_balance, view-set_history_len, set_balance-IsStoredEntry,
  set_history_len-IsStoredEntry, view-new, new-IsStoredEntry,
}
use snip20_reference_impl.Btbe.Bundles.{amount_u64, get_tx_bundle_at_unchecked}
use snip20_reference_impl.Btbe.History.{
  set_tx_bundle_at_unchecked, push_tx_bundle, from_dwb_entry, merge_dwb_entry, or_missing,
}
use snip20_reference_impl.Btbe.Settle.Rewrite.{trie_part}

-- The entry of address `a` with the balance `v`.
pub record Booked (a : Bytes) (v : ℕ) (e : StoredEntry) : Type 0 where
  pub sound : IsStoredEntry e
  pub owned : address e ≡ a
  pub holds : balance e ≡ v

-- The results that the two read.
select-Good : (c a b : ℕ) → Good (λ n. Unit {0}) (constant_time_if_else_u32 c a b)
unfolding constant_time_if_else_u32
select-Good c a b = elim (Bool-cases (ltb 1 c)) [ inl e ↦ rw e (λ q. cc) | inr e ↦ rw e tt ]

-- What `amount_spent.unwrap_or_default()` is.
abbrev pub spent_of : Option ℕ → ℕ
spent_of none = 0
spent_of (some x) = x

amount_u64-Good : (spent : Option ℕ) → Good (λ n. n ≡ spent_of spent) (amount_u64 spent)
unfolding amount_u64
amount_u64-Good none = refl
amount_u64-Good (some x) = elim (Bool-cases (leb x u64_max)) [
  | inl e ↦ rw e refl
  | inr e ↦ rw e (λ q. cc)
]

checked_sub-Good :
    (a b : ℕ) (x : Error)
    → x ≢ out_of_fuel
    → Good (λ n. (b ≤ a) × (n ≡ a - b)) (or_err (checked_sub a b) x)
checked_sub-Good a b x h = elim (Bool-cases (leb b a)) [
  | inl e ↦ rw e (ground arith, refl)
  | inr e ↦ rw e h
]

new-Good : (a : Bytes) → length a ≡ 20 → All IsByte a → Good (Booked a 0) (new a)
new-Good a n bs =
    let (e, q, v) = view-new a n in
    rw q (record {
      sound = new-IsStoredEntry a bs q;
      owned = ap (λ (x : View). x.address) v;
      holds = ap (λ (x : View). x.balance) v;
    })

add_word-Good : (m a b : ℕ) → Good (λ n. Unit {0}) (add_word m a b)
add_word-Good m a b = elim (Bool-cases (leb (a + b) m)) [ inl e ↦ rw e tt | inr e ↦ rw e (λ q. cc) ]

last_bundle-Good :
    (e : StoredEntry) (pos : ℕ) (s : Storage)
    → Good (λ b. Unit {0}) (or_missing (get_tx_bundle_at_unchecked e pos s))
unfolding or_missing
last_bundle-Good e pos s = elim (Result-cases (get_tx_bundle_at_unchecked e pos s)) [
  | inl (b, q) ↦ rw q tt
  | inr (x, q) ↦ rw q (λ q. cc)
]

set_balance-Booked :
    (v : ℕ) (e : StoredEntry) {a : Bytes} {w : ℕ}
    → v < 2 ^ 64
    → Booked a w e
    → Booked a v (set_balance v e)
set_balance-Booked v e lt h =
    let q = view-set_balance v e h.sound lt in
    record {
      sound = set_balance-IsStoredEntry v e h.sound;
      owned = ap (λ (x : View). x.address) q ∙ h.owned;
      holds = ap (λ (x : View). x.balance) q;
    }

set_tx_bundle-Does :
    (e : StoredEntry) (pos : ℕ) (bundle : TxBundle)
    → Does trie_part (λ u. Unit {0}) (set_tx_bundle_at_unchecked e pos bundle)
unfolding set_tx_bundle_at_unchecked
set_tx_bundle-Does e pos bundle = record { does = λ s. (refl, tt) }

push_tx_bundle-Booked :
    (bundle : TxBundle) (e : StoredEntry) {a : Bytes} {v : ℕ}
    → Booked a v e
    → Does trie_part (Booked a v) (push_tx_bundle bundle e)
unfolding push_tx_bundle
push_tx_bundle-Booked bundle e {a} {v} h =
    let flag = bool_word (bundle.head_node == 0) in
    bind-Does (λ u. Unit) (set_tx_bundle-Does e (history_len e) bundle)
      (λ u _.
        bind-Does (λ n. Unit)
          (lift-Does (constant_time_if_else_u32 flag 0 1) (select-Good flag 0 1))
          (λ add _.
            let len = saturating_add u32_max (history_len e) add in
            let w = view-set_history_len len e h.sound (ground arith) in
            pure-Does (set_history_len len e) (record {
              sound = set_history_len-IsStoredEntry len e h.sound;
              owned = ap (λ (x : View). x.address) w ∙ h.owned;
              holds = ap (λ (x : View). x.balance) w ∙ h.holds;
            })))

recipient-IsByte : (d : DwbEntry) → IsEntry d → All IsByte (Pending.recipient d)
unfolding Pending.recipient
recipient-IsByte d w = slice-IsByte 0 20 d w.bytes

-- What comes of the amount `total` when `spent` goes off.
abbrev pub After : Bytes → ℕ → Option ℕ → StoredEntry → Type 0
After a total spent e = (spent_of spent ≤ total) × Booked a (total - spent_of spent) e

pub from_dwb_entry-Does :
    (d : DwbEntry) (spent : Option ℕ)
    → IsEntry d
    → Does trie_part (After (Pending.recipient d) (Pending.amount d) spent) (from_dwb_entry d spent)
unfolding from_dwb_entry
from_dwb_entry-Does d spent w =
    let a = Pending.recipient d in
    let total = Pending.amount d in
    let (n, small, heads, lens) = Pending_fields.view_bounds d w in
    bind-Does (Booked a 0) (lift-Does (new a) (new-Good a n (recipient-IsByte d w))) (λ e h.
      bind-Does (λ x. x ≡ spent_of spent) (lift-Does (amount_u64 spent) (amount_u64-Good spent))
        (λ x sp.
          bind-Does (λ v. (x ≤ total) × (v ≡ total - x))
            (lift-Does (or_err (checked_sub total x) (insufficient_funds_creating total x))
              (checked_sub-Good total x (insufficient_funds_creating total x) (λ q. cc)))
            (λ v (fits, is).
              let booked = set_balance-Booked v e (omega arith) h in
              let bundle : TxBundle = record {
                head_node = Pending.head_node d;
                list_len = Pending.list_len d;
                offset = 0;
              } in
              weaken-Does (Booked a v) (λ e' b. (rw (← sp) fits, rw (← sp, ← is) b))
                (push_tx_bundle-Booked bundle (set_balance v e) booked))))

pub merge_dwb_entry-Does :
    (d : DwbEntry) (spent : Option ℕ) (e : StoredEntry)
    → IsStoredEntry e
    → Does trie_part
        (After (address e) (saturating_add u64_max (balance e) (Pending.amount d)) spent)
        (merge_dwb_entry d spent e)
unfolding merge_dwb_entry safe_add_u64
merge_dwb_entry-Does d spent e w =
    let total = saturating_add u64_max (balance e) (Pending.amount d) in
    let own : Booked (address e) (balance e) e = record { sound = w; owned = refl; holds = refl } in
    bind-Does (λ x. x ≡ spent_of spent) (lift-Does (amount_u64 spent) (amount_u64-Good spent))
      (λ x sp.
        bind-Does (λ v. (x ≤ total) × (v ≡ total - x))
          (lift-Does (or_err (checked_sub total x) (insufficient_funds_merging total x))
            (checked_sub-Good total x (insufficient_funds_merging total x) (λ q. cc)))
          (λ v (fits, is).
            let e' = set_balance v e in
            let booked = set_balance-Booked v e (ground arith) own in
            let none_yet = bool_word (history_len e' == 0) in
            let before = wrapping_sub_u32 (history_len e') 1 in
            bind-Does (λ n. Unit)
              (lift-Does (constant_time_if_else_u32 none_yet 0 before)
                (select-Good none_yet 0 before))
              (λ pos _.
                bind-Does (λ b. Unit)
                  (reads-Does (λ s. or_missing (get_tx_bundle_at_unchecked e' pos s))
                    (last_bundle-Good e' pos))
                  (λ last _.
                    bind-Does (λ n. Unit)
                      (lift-Does (add_word u32_max last.offset last.list_len)
                        (add_word-Good u32_max last.offset last.list_len))
                      (λ next _.
                        bind-Does (λ n. Unit)
                          (lift-Does (constant_time_if_else_u32 none_yet 0 next)
                            (select-Good none_yet 0 next))
                          (λ offset _.
                            let bundle : TxBundle = record {
                              head_node = Pending.head_node d;
                              list_len = Pending.list_len d;
                              offset = offset;
                            } in
                            weaken-Does (Booked (address e) v)
                              (λ e'' b. (rw (← sp) fits, rw (← sp, ← is) b))
                              (push_tx_bundle-Booked bundle e' booked)))))))
