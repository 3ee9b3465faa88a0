-- ===== src/Btbe/Settle/Route.antt =====
-- The two halves of a full bucket: every entry goes to the side of its own bit.
use snip20_reference_impl.Common.{
  ℕ, suc, ◌/◌, ◌<◌, ◌≤◌, ◌≡◌, ◌≢◌, refl, ap, sym, ◌∙◌, Bool, true, false, not, ◌⊎◌, inl, inr, none,
  some, List, [], ◌∷◌, arith, length, get_elem?, get_elem?_total, ◌==◌,
}
use snip20_reference_impl.Common.Bytes.{Bytes}
use snip20_reference_impl.Outcome.{ok}
use snip20_reference_impl.Platform.{Platform, Documented}
use snip20_reference_impl.Btbe.Types.{BtbeBucket}
use snip20_reference_impl.Btbe.Entry.{StoredEntry, address, impossible_addr}
use snip20_reference_impl.Btbe.Entry.Fields.{IsStoredEntry}
use snip20_reference_impl.Btbe.Bundles.{routes_to_right_node, bucketing_salt_bytes, bit_of_byte}
use snip20_reference_impl.Btbe.Bucket.{add_entry}
use snip20_reference_impl.Btbe.Bucket.Matches.{matches, matches_hit, matches_miss, address_cases}
use snip20_reference_impl.Btbe.Bucket.Invariant.{IsBucket, Single, add_entry-IsBucket}
use snip20_reference_impl.Btbe.Trie.Invariant.{hash_of}
use snip20_reference_impl.Btbe.Settle.{route_entry, route_entries}

-- The bit of a hash at a position.
unfoldable pub bit : Bytes → ℕ → Bool
bit hash pos = elim (get_elem? hash (pos / 8)) [
  | none ↦ false
  | some byte ↦ not (bit_of_byte byte pos == 0)
]

abbrev pub pick : Bool → BtbeBucket × BtbeBucket → BtbeBucket
pick false sides = sides.0
pick true sides = sides.1

abbrev put : Bool → BtbeBucket → BtbeBucket × BtbeBucket → BtbeBucket × BtbeBucket
put false b sides = (b, sides.1)
put true b sides = (sides.0, b)

pick-put_same :
    (c : Bool) (b : BtbeBucket) (sides : BtbeBucket × BtbeBucket) → pick c (put c b sides) ≡ b
pick-put_same false b sides = refl
pick-put_same true b sides = refl

-- What holds of the side that is written and of the one before holds of every side after.
pick-put :
    (P : BtbeBucket → Type 0) (c d : Bool) (b : BtbeBucket) (sides : BtbeBucket × BtbeBucket)
    → (c ≡ d → P b)
    → P (pick d sides)
    → P (pick d (put c b sides))
pick-put P false false b sides new old = new refl
pick-put P false true b sides new old = old
pick-put P true false b sides new old = old
pick-put P true true b sides new old = new refl

-- The entries of an address in what follows an entry.
none_after :
    (e : StoredEntry) (es : List StoredEntry) {a : Bytes}
    → Single (e ∷ es)
    → a ≢ impossible_addr
    → address e ≡ a
    → matches a es ≡ []
none_after e es {a} one ne here = elim (one a ne) [
  | inl absent ↦ absurd (cc (matches_hit a e es here))
  | inr (x, q) ↦ cc (matches_hit a e es here)
]

Single-rest : (e : StoredEntry) (es : List StoredEntry) → Single (e ∷ es) → Single es
Single-rest e es one a ne = elim (address_cases e a) [
  | inl here ↦ inl (none_after e es one ne here)
  | inr other ↦ rw (← matches_miss a e es other) (one a ne)
]

module _ (p : Platform) (doc : Documented p) (secret : Bytes) where
  pub routes-eq-bit :
      (e : StoredEntry) (pos : ℕ)
      → pos < 256
      → routes_to_right_node p e pos secret ≡ ok (bit (hash_of doc secret (address e)) pos)
  unfolding routes_to_right_node bit
  routes-eq-bit e pos lt =
      let (hash, hashed, n) = doc.hkdf_sha_256_total bucketing_salt_bytes secret (address e) in
      let (byte, g) = get_elem?_total hash (pos / 8) (omega arith) in ground (arith, hashed, g)

  module _ (pos : ℕ) (lt : pos < 256) where
    route_side :
        (c : Bool) (e : StoredEntry) (sides : BtbeBucket × BtbeBucket) (b' : BtbeBucket)
        → routes_to_right_node p e pos secret ≡ ok c
        → add_entry p (pick c sides) e ≡ ok (true, b')
        → route_entry p secret pos e sides ≡ ok (put c b' sides)
    unfolding route_entry
    route_side false e sides b' r q = ground (arith, r, q)
    route_side true e sides b' r q = ground (arith, r, q)

    -- Entries that have come to two buckets, each on the side of its bit.
    pub record Halves (es : List StoredEntry) (old fresh : BtbeBucket × BtbeBucket) : Type 0 where
      pub sound : (c : Bool) → IsBucket p (pick c fresh)
      pub kept :
          (c : Bool) (a : Bytes)
          → a ≢ impossible_addr
          → matches a es ≡ []
          → matches a (pick c fresh).entries ≡ matches a (pick c old).entries
      pub own :
          (a : Bytes)
          → a ≢ impossible_addr
          → (e : StoredEntry) → matches a es ≡ e ∷ []
          → matches a (pick (bit (hash_of doc secret a) pos) fresh).entries ≡ e ∷ []

    pub route_entries-Halves :
        (es : List StoredEntry) (sides : BtbeBucket × BtbeBucket)
        → ((c : Bool) → IsBucket p (pick c sides))
        → ((c : Bool) → length es ≤ (pick c sides).capacity)
        → ((i : ℕ) (e : StoredEntry) → get_elem? es i ≡ some e → IsStoredEntry e)
        → Single es
        → ((a : Bytes)
            → a ≢ impossible_addr
            → (matches a es ≡ []) ⊎ ((c : Bool) → matches a (pick c sides).entries ≡ []))
        → (sides' : BtbeBucket × BtbeBucket) × (route_entries p secret pos es sides ≡ ok sides')
          × Halves es sides sides'
    unfolding route_entries
    route_entries-Halves [] sides w room stored one apart =
        (sides, refl, record { sound = w; kept = λ c a ne h. refl; own = λ a ne e h. absurd cc })
    route_entries-Halves (e ∷ es) sides w room stored one apart =
        let c = bit (hash_of doc secret (address e)) pos in
        let h_c = room c in
        let fresh : address e ≢ impossible_addr → matches (address e) (pick c sides).entries ≡ [] =
          λ ne. elim (apart (address e) ne) [
            | inl none_yet ↦ absurd (cc (matches_hit (address e) e es refl))
            | inr clear ↦ clear c
          ] in
        let (b', q, wb, cap, others, own) =
          add_entry-IsBucket p (pick c sides) (w c) e (omega arith) (stored 0 e refl) fresh in
        let elsewhere : (d : Bool) (a : Bytes)
            → a ≢ impossible_addr
            → address e ≢ a
            → matches a (pick d (put c b' sides)).entries ≡ matches a (pick d sides).entries =
          λ d a ne other.
            pick-put (λ b. matches a b.entries ≡ matches a (pick d sides).entries) c d b' sides
              (λ same. rw (← same) (others a ne other)) refl in
        let step = route_side c e sides b' (routes-eq-bit e pos lt) q in
        let (sides', rest, halves) =
          route_entries-Halves es (put c b' sides)
            (λ d. pick-put (IsBucket p) c d b' sides (λ x. wb) (w d))
            (λ d.
              let h_d = room d in
              pick-put (λ b. length es ≤ b.capacity) c d b' sides (λ x. omega arith) (omega arith))
            (λ i x g. stored (suc i) x g) (Single-rest e es one)
            (λ a ne. elim (address_cases e a) [
              | inl here ↦ inl (none_after e es one ne here)
              | inr other ↦ elim (apart a ne) [
                | inl m ↦ inl (sym (matches_miss a e es other) ∙ m)
                | inr clear ↦ inr (λ d. elsewhere d a ne other ∙ clear d)
              ]
            ]) in
        (
          sides',
          ground (arith, step, rest),
          record {
            sound = halves.sound;
            kept = λ d a ne h. elim (address_cases e a) [
              | inl here ↦ absurd (cc (matches_hit a e es here))
              | inr other ↦
                  halves.kept d a ne (sym (matches_miss a e es other) ∙ h) ∙ elsewhere d a ne other
            ];
            own = λ a ne x h. elim (address_cases e a) [
              | inl here ↦
                  let ne' : address e ≢ impossible_addr = λ q. ne (sym here ∙ q) in
                  let rest_none = none_after e es one ne here in
                  let at_e : matches (address e) (pick c sides').entries ≡ e ∷ [] =
                    halves.kept c (address e) ne' (none_after e es one ne' refl)
                    ∙ ap (λ (b : BtbeBucket). matches (address e) b.entries)
                        (pick-put_same c b' sides)
                    ∙ own ne' in
                  let at_a : matches a (pick (bit (hash_of doc secret a) pos) sides').entries
                      ≡ e ∷ [] =
                    ap (λ v. matches v (pick (bit (hash_of doc secret v) pos) sides').entries)
                      (sym here)
                    ∙ at_e in
                  let e_is_x : e ∷ [] ≡ x ∷ [] =
                    sym (matches_hit a e es here ∙ ap (λ r. e ∷ r) rest_none) ∙ h in
                  at_a ∙ e_is_x
              | inr other ↦ halves.own a ne x (sym (matches_miss a e es other) ∙ h)
            ];
          },
        )
