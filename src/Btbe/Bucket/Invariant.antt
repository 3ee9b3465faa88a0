-- ===== src/Btbe/Bucket/Invariant.antt =====
-- What every bucket in storage satisfies, and the operations on buckets as changes to the entries of
-- each address.
use snip20_reference_impl.Common.{
  ℕ, zero, suc, ◌+◌, ◌-◌, ◌<◌, ◌≤◌, ◌≡◌, ◌≢◌, refl, ap, sym, ◌∙◌, true, ◌⊎◌, inl, inr, none, some,
  some-injective, List, [], ◌∷◌, arith, length, replicate, get_elem?, set, length-set,
  length-replicate, get_elem?-set_self, get_elem?-set_ne, get_elem?_bound, Bool-cases, ◌==◌,
}
use snip20_reference_impl.Common.Bytes.{Bytes, bytes_eq, bytes_eq_iff}
use snip20_reference_impl.Outcome.{ok}
use snip20_reference_impl.Platform.{Platform, Documented}
use snip20_reference_impl.Btbe.Entry.{StoredEntry, address, impossible_addr}
use snip20_reference_impl.Btbe.Entry.Fields.{IsStoredEntry, View, view-new, new-IsStoredEntry}
use snip20_reference_impl.Btbe.Types.{BtbeBucket}
use snip20_reference_impl.Btbe.Bucket.{new_bucket, add_entry, find_loop, constant_time_find_address}
use snip20_reference_impl.Btbe.Bucket.Matches.{
  bytes_eq_same, matches, matches_miss, matches-set_other, matches-set_new, matches-set_self,
  find_loop_none, find_loop_one,
}

-- At most one entry of each address but the one that stands for none.
abbrev pub Single : List StoredEntry → Type 0
Single es =
    (a : Bytes)
    → a ≢ impossible_addr
    → (matches a es ≡ []) ⊎ ((e : StoredEntry) × (matches a es ≡ e ∷ []))

-- The places that `capacity` counts are the last ones, and hold entries of the address of nobody.
pub record IsBucket (p : Platform) (b : BtbeBucket) : Type 0 where
  pub size : length b.entries ≡ p.btbe_capacity
  pub capacity_fits : b.capacity ≤ p.btbe_capacity
  pub free :
      (i : ℕ)
      → p.btbe_capacity ≤ i + b.capacity
      → i < p.btbe_capacity
      → (e : StoredEntry) × (get_elem? b.entries i ≡ some e) × (address e ≡ impossible_addr)
  pub stored : (i : ℕ) (e : StoredEntry) → get_elem? b.entries i ≡ some e → IsStoredEntry e
  pub single : Single b.entries

-- Every entry of a list of copies is the one that is copied.
get_elem?-replicate : (n i : ℕ) (e : StoredEntry) → i < n → get_elem? (replicate n e) i ≡ some e
get_elem?-replicate zero i e h = elim h [ ]
get_elem?-replicate (suc n) zero e h = refl
get_elem?-replicate (suc n) (suc i) e h = get_elem?-replicate n i e (omega arith)

replicate_only :
    (n i : ℕ) (e : StoredEntry) {x : StoredEntry} → get_elem? (replicate n e) i ≡ some x → x ≡ e
replicate_only zero i e g = cc
replicate_only (suc n) zero e g = cc
replicate_only (suc n) (suc i) e g = replicate_only n i e g

matches-replicate :
    (a : Bytes) (n : ℕ) (e : StoredEntry) → address e ≢ a → matches a (replicate n e) ≡ []
matches-replicate a zero e h = refl
matches-replicate a (suc n) e h = matches_miss a e (replicate n e) h ∙ matches-replicate a n e h

-- What stands at a place after a write.
get_elem?-set_cases :
    (es : List StoredEntry) (i j : ℕ) (v : StoredEntry) {x : StoredEntry}
    → get_elem? (set es i v) j ≡ some x
    → (x ≡ v) ⊎ (get_elem? es j ≡ some x)
get_elem?-set_cases es i j v {x} g = elim (Bool-cases (i == j)) [
  | inl same ↦
      let e : i ≡ j = ground arith in
      let fits : i < length es =
        rw (length-set es i v) at (get_elem?_bound (set es i v) i (rw (← e) at g)) in
      inl (some-injective x v (sym g ∙ rw (← e) (get_elem?-set_self es i v fits)))
  | inr other ↦ let ne : i ≢ j = ground arith in inr (sym (get_elem?-set_ne es v ne) ∙ g)
]

module _ (p : Platform) where
  pub new_bucket-IsBucket :
      (b : BtbeBucket) × (new_bucket p ≡ ok b)
      × IsBucket p b
      × (b.capacity ≡ p.btbe_capacity)
      × ((a : Bytes) → a ≢ impossible_addr → matches a b.entries ≡ [])
  unfolding new_bucket
  new_bucket-IsBucket =
      let (blank, q, v) = view-new impossible_addr refl in
      let nobody : address blank ≡ impossible_addr = ap (λ (w : View). w.address) v in
      let w = new-IsStoredEntry impossible_addr (omega arith) q in
      let n = p.btbe_capacity in
      let empty : (a : Bytes) → a ≢ impossible_addr → matches a (replicate n blank) ≡ [] =
        λ a ne. matches-replicate a n blank (λ e. ne (sym e ∙ nobody)) in
      (
        record { capacity = n; entries = replicate n blank },
        ground (arith, q),
        record {
          size = length-replicate n blank;
          capacity_fits = omega arith;
          free = λ i h fits. (blank, get_elem?-replicate n i blank fits, nobody);
          stored = λ i e g. rw (replicate_only n i blank g) w;
          single = λ a ne. inl (empty a ne);
        },
        refl,
        empty,
      )

module _ (p : Platform) (b : BtbeBucket) (w : IsBucket p b) where
  -- Into a bucket with a free place an entry goes whose address has no entry there.
  pub add_entry-IsBucket :
      (e : StoredEntry)
      → 0 < b.capacity
      → IsStoredEntry e
      → (address e ≢ impossible_addr → matches (address e) b.entries ≡ [])
      → (b' : BtbeBucket) × (add_entry p b e ≡ ok (true, b'))
        × IsBucket p b'
        × (b'.capacity + 1 ≡ b.capacity)
        × ((a : Bytes)
            → a ≢ impossible_addr
            → address e ≢ a
            → matches a b'.entries ≡ matches a b.entries)
        × (address e ≢ impossible_addr → matches (address e) b'.entries ≡ e ∷ [])
  unfolding add_entry
  add_entry-IsBucket e room es absent =
      let n = p.btbe_capacity in
      let cap = w.capacity_fits in
      let size = w.size in
      let place = n - b.capacity in
      let (old, g, nobody) = w.free place (omega arith) (omega arith) in
      let others : (a : Bytes)
          → a ≢ impossible_addr
          → address e ≢ a
          → matches a (set b.entries place e) ≡ matches a b.entries =
        λ a ne other. matches-set_other a b.entries place e g (λ q. ne (sym q ∙ nobody)) other in
      let own : address e ≢ impossible_addr → matches (address e) (set b.entries place e) ≡ e ∷ [] =
        λ ne. matches-set_new (address e) b.entries place e g (absent ne) refl in
      (
        record b { entries = set b.entries place e; capacity = b.capacity - 1 },
        ground arith,
        record {
          size = length-set b.entries place e ∙ size;
          capacity_fits = omega arith;
          free = λ i h fits.
              let (x, gx, hx) = w.free i (omega arith) fits in
              let ne : place ≢ i = omega arith in (x, get_elem?-set_ne b.entries e ne ∙ gx, hx);
          stored = λ i x gx. elim (get_elem?-set_cases b.entries place i e gx) [
            | inl new_one ↦ rw new_one es
            | inr kept ↦ w.stored i x kept
          ];
          single = λ a ne. elim (Bool-cases (bytes_eq a (address e))) [
            | inl hit ↦
                let same : a ≡ address e = (bytes_eq_iff a (address e)).0 hit in
                rw same (inr (e, own (λ q. ne (same ∙ q))))
            | inr miss ↦
                let other : address e ≢ a = λ q. cc (bytes_eq_same a (address e) q) in
                rw (others a ne other) (w.single a ne)
          ];
        },
        omega arith,
        others,
        own,
      )

  -- Over the only entry of an address another entry of it is written.
  pub set-IsBucket :
      (i : ℕ) (e e' : StoredEntry)
      → get_elem? b.entries i ≡ some e
      → address e ≢ impossible_addr
      → address e' ≡ address e
      → IsStoredEntry e'
      → matches (address e) b.entries ≡ e ∷ []
      → IsBucket p (record b { entries = set b.entries i e' })
        × ((a : Bytes) → address e ≢ a → matches a (set b.entries i e') ≡ matches a b.entries)
        × (matches (address e) (set b.entries i e') ≡ e' ∷ [])
  set-IsBucket i e e' g somebody same es one =
      let others : (a : Bytes)
          → address e ≢ a
          → matches a (set b.entries i e') ≡ matches a b.entries =
        λ a other. matches-set_other a b.entries i e' g other (λ q. other (sym same ∙ q)) in
      let own : matches (address e) (set b.entries i e') ≡ e' ∷ [] =
        matches-set_self (address e) b.entries i e' g refl one same in
      (
        record {
          size = length-set b.entries i e' ∙ w.size;
          capacity_fits = w.capacity_fits;
          free = λ j h fits.
              let (x, gx, hx) = w.free j h fits in
              let ne : i ≢ j =
                λ q. somebody (ap address (some-injective e x (sym g ∙ rw q gx)) ∙ hx) in
              (x, get_elem?-set_ne b.entries e' ne ∙ gx, hx);
          stored = λ j x gx. elim (get_elem?-set_cases b.entries i j e' gx) [
            | inl new_one ↦ rw new_one es
            | inr kept ↦ w.stored j x kept
          ];
          single = λ a ne. elim (Bool-cases (bytes_eq a (address e))) [
            | inl hit ↦
                let here : a ≡ address e = (bytes_eq_iff a (address e)).0 hit in
                rw here (inr (e', own))
            | inr miss ↦
                let other : address e ≢ a = λ q. cc (bytes_eq_same a (address e) q) in
                rw (others a other) (w.single a ne)
          ];
        },
        others,
        own,
      )

module _ (p : Platform) (doc : Documented p) (b : BtbeBucket) (a : Bytes) where
  pub find_none : matches a b.entries ≡ [] → constant_time_find_address p b a ≡ ok none
  unfolding constant_time_find_address
  find_none h = rw (find_loop_none p doc a 0 0 b.entries h) refl

  pub find_one :
      (e : StoredEntry)
      → matches a b.entries ≡ e ∷ []
      → (i : ℕ) × (constant_time_find_address p b a ≡ ok (some (i, e)))
        × (get_elem? b.entries i ≡ some e)
        × (address e ≡ a)
  unfolding constant_time_find_address
  find_one e h =
      let (i, g, h', f) = find_loop_one p doc a 0 b.entries e h in
      let f' : find_loop p a 0 0 b.entries ≡ suc i = f ∙ omega arith in
      (i, ground (arith, f', g), g, h')
