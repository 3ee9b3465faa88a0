-- ===== src/Dwb/Entry/Fields.antt =====
-- The bytes of a buffer entry as four fields: what each reads after each write.
use snip20_reference_impl.Common.{
  ℕ, zero, suc, ◌+◌, ◌%◌, ◌^◌, ◌≤◌, ◌<◌, ◌≡◌, refl, ◌∙◌, arith, length, All, drop, replicate, ◌≢◌,
  ◌⊎◌, inl, inr, ◌==◌, Bool-cases,
}
use snip20_reference_impl.Common.Bytes.{
  Bytes, IsByte, slice, copy_into, to_be_bytes, from_be_bytes, length-to_be_bytes, from_be-to_be,
  from_be-drop_three, from_be_bytes-lt, to_be_bytes-IsByte, slice-IsByte, slice-copy_into,
  slice-copy_into_above, slice-copy_into_below, length-copy_into, copy_into-IsByte, length-slice,
}
use snip20_reference_impl.Outcome.{ok, err, set_recipient_error}
use snip20_reference_impl.Dwb.Entry.{
  DwbEntry, new, recipient, set_recipient, amount, set_amount, head_node, set_head_node, list_len,
  set_list_len,
}

-- An array of 35 bytes.
pub record IsEntry (e : DwbEntry) : Type 0 where
  pub size : length e ≡ 35
  pub bytes : All IsByte e

-- What the four fields of an entry hold.
pub record View : Type 0 where
  pub recipient : Bytes
  pub amount : ℕ
  pub head_node : ℕ
  pub list_len : ℕ

abbrev pub view : DwbEntry → View
view e = record {
  recipient = recipient e;
  amount = amount e;
  head_node = head_node e;
  list_len = list_len e;
}

-- Reading five bytes behind zeros is reading the five bytes.
head_node-bytes : (e : DwbEntry) → head_node e ≡ from_be_bytes (slice 28 5 e)
unfolding head_node from_be_bytes
head_node-bytes e = refl

no_bytes : (n : ℕ) → from_be_bytes (replicate n 0) ≡ 0
unfolding from_be_bytes
no_bytes zero = refl
no_bytes (suc n) = no_bytes n

field_bound :
    (s n : ℕ) (e : DwbEntry) → IsEntry e → s + n ≤ 35 → from_be_bytes (slice s n e) < 256 ^ n
field_bound s n e h fits =
    rw (length-slice s n e (omega arith)) at
      (from_be_bytes-lt (slice s n e) (slice-IsByte s n e h.bytes))

-- Each write changes its own field to the value that fits, and leaves the others.
pub view-set_amount :
    (v : ℕ) (e : DwbEntry)
    → IsEntry e
    → v < 2 ^ 64
    → view (set_amount v e) ≡ record (view e) { amount = v }
unfolding set_amount recipient amount head_node list_len
view-set_amount v e h lt =
    let bs = to_be_bytes 8 v in
    let n = length-to_be_bytes 8 v in
    cc (
      slice-copy_into 20 8 bs e n (omega arith),
      from_be-to_be 8 v lt,
      slice-copy_into_below 20 0 20 bs e (omega arith),
      slice-copy_into_above 20 28 5 bs e (omega arith),
      slice-copy_into_above 20 33 2 bs e (omega arith),
    )

pub view-set_list_len :
    (v : ℕ) (e : DwbEntry)
    → IsEntry e
    → v < 2 ^ 16
    → view (set_list_len v e) ≡ record (view e) { list_len = v }
unfolding set_list_len recipient amount head_node list_len
view-set_list_len v e h lt =
    let bs = to_be_bytes 2 v in
    let n = length-to_be_bytes 2 v in
    cc (
      slice-copy_into 33 2 bs e n (omega arith),
      from_be-to_be 2 v lt,
      slice-copy_into_below 33 0 20 bs e (omega arith),
      slice-copy_into_below 33 20 8 bs e (omega arith),
      slice-copy_into_below 33 28 5 bs e (omega arith),
    )

-- Of the head node's id the forty low bits are kept.
pub view-set_head_node :
    (v : ℕ) (e : DwbEntry)
    → IsEntry e
    → view (set_head_node v e) ≡ record (view e) { head_node = v % 2 ^ 40 }
unfolding set_head_node recipient amount list_len
view-set_head_node v e h =
    let bs = drop 3 (to_be_bytes 8 v) in
    let n : length bs ≡ 5 = unfold to_be_bytes in refl in
    cc (
      head_node-bytes (copy_into 28 bs e),
      slice-copy_into 28 5 bs e n (omega arith),
      from_be-drop_three v,
      slice-copy_into_below 28 0 20 bs e (omega arith),
      slice-copy_into_below 28 20 8 bs e (omega arith),
      slice-copy_into_above 28 33 2 bs e (omega arith),
    )

pub view-set_recipient :
    (val : Bytes) (e : DwbEntry)
    → IsEntry e
    → length val ≡ 20
    → (e' : DwbEntry) × (set_recipient val e ≡ ok e')
      × (view e' ≡ record (view e) { recipient = val })
unfolding set_recipient recipient amount list_len
view-set_recipient val e h n = (
  copy_into 0 val e,
  ground arith,
  cc (
    head_node-bytes e,
    head_node-bytes (copy_into 0 val e),
    slice-copy_into 0 20 val e n (omega arith),
    slice-copy_into_above 0 20 8 val e (omega arith),
    slice-copy_into_above 0 28 5 val e (omega arith),
    slice-copy_into_above 0 33 2 val e (omega arith),
  ),
)

set_recipient_refuses :
    (val : Bytes) (e : DwbEntry) → length val ≢ 20 → set_recipient val e ≡ err set_recipient_error
unfolding set_recipient
set_recipient_refuses val e n = ground arith

-- A new entry belongs to its address and holds nothing.
pub view-new :
    (a : Bytes)
    → length a ≡ 20
    → (e : DwbEntry) × (new a ≡ ok e)
      × (view e ≡ record { recipient = a; amount = 0; head_node = 0; list_len = 0 })
unfolding new recipient amount list_len
view-new a n =
    let blank = replicate 35 0 in
    (
      copy_into 0 a blank,
      ground arith,
      cc (
        head_node-bytes (copy_into 0 a blank),
        slice-copy_into 0 20 a blank n (omega arith),
        slice-copy_into_above 0 20 8 a blank (omega arith),
        slice-copy_into_above 0 28 5 a blank (omega arith),
        slice-copy_into_above 0 33 2 a blank (omega arith),
        no_bytes 8,
        no_bytes 5,
        no_bytes 2,
      ),
    )

-- The lengths and the bytes are kept.
pub set_amount-IsEntry : (v : ℕ) (e : DwbEntry) → IsEntry e → IsEntry (set_amount v e)
unfolding set_amount
set_amount-IsEntry v e h = record {
  size = length-copy_into 20 (to_be_bytes 8 v) e ∙ h.size;
  bytes = copy_into-IsByte 20 (to_be_bytes 8 v) e (to_be_bytes-IsByte 8 v) h.bytes;
}

pub set_list_len-IsEntry : (v : ℕ) (e : DwbEntry) → IsEntry e → IsEntry (set_list_len v e)
unfolding set_list_len
set_list_len-IsEntry v e h = record {
  size = length-copy_into 33 (to_be_bytes 2 v) e ∙ h.size;
  bytes = copy_into-IsByte 33 (to_be_bytes 2 v) e (to_be_bytes-IsByte 2 v) h.bytes;
}

pub set_head_node-IsEntry : (v : ℕ) (e : DwbEntry) → IsEntry e → IsEntry (set_head_node v e)
unfolding set_head_node
set_head_node-IsEntry v e h =
    let bs = drop 3 (to_be_bytes 8 v) in
    record {
      size = length-copy_into 28 bs e ∙ h.size;
      bytes = copy_into-IsByte 28 bs e (unfold to_be_bytes in omega arith) h.bytes;
    }

pub set_recipient-IsEntry :
    (val : Bytes) (e : DwbEntry) {e' : DwbEntry}
    → IsEntry e
    → All IsByte val
    → set_recipient val e ≡ ok e'
    → IsEntry e'
unfolding set_recipient
set_recipient-IsEntry val e {e'} h bs p =
    let q : copy_into 0 val e ≡ e' = ground arith in
    rw (← q) (record {
      size = length-copy_into 0 val e ∙ h.size;
      bytes = copy_into-IsByte 0 val e bs h.bytes;
    })

pub new-IsEntry : (a : Bytes) {e : DwbEntry} → All IsByte a → new a ≡ ok e → IsEntry e
unfolding new
new-IsEntry a {e} bs p =
    let blank = replicate 35 0 in
    let q : copy_into 0 a blank ≡ e = ground arith in
    rw (← q) (record {
      size = length-copy_into 0 a blank;
      bytes = copy_into-IsByte 0 a blank bs (omega arith);
    })

-- The values that the fields can hold.
pub view_bounds :
    (e : DwbEntry)
    → IsEntry e
    → (length (recipient e) ≡ 20)
      × (amount e < 2 ^ 64)
      × (head_node e < 2 ^ 40)
      × (list_len e < 2 ^ 16)
unfolding recipient amount list_len
view_bounds e h = (
  length-slice 0 20 e (omega arith),
  field_bound 20 8 e h (omega arith),
  rw (head_node-bytes e) (field_bound 28 5 e h (omega arith)),
  field_bound 33 2 e h (omega arith),
)

-- The writes of an entry's amount, length and head node change their own field and no other: to the
-- value itself where it fits its bytes, and for the head node to its forty low bits. The write of the
-- recipient does so with an address of 20 bytes and refuses every other.
pub setters_exact :
    (v : ℕ) (val : Bytes) (e : DwbEntry)
    → IsEntry e
    → (v < 2 ^ 64 → view (set_amount v e) ≡ record (view e) { amount = v })
      × (v < 2 ^ 16 → view (set_list_len v e) ≡ record (view e) { list_len = v })
      × (view (set_head_node v e) ≡ record (view e) { head_node = v % 2 ^ 40 })
      × (((length val ≡ 20)
            × (e' : DwbEntry) × (set_recipient val e ≡ ok e')
            × (view e' ≡ record (view e) { recipient = val }))
          ⊎ ((length val ≢ 20) × (set_recipient val e ≡ err set_recipient_error)))
setters_exact v val e h = (
  view-set_amount v e h,
  view-set_list_len v e h,
  view-set_head_node v e h,
  elim (Bool-cases (length val == 20)) [
    | inl fits ↦
        let n : length val ≡ 20 = ground (arith, fits) in
        let (e', written, fields) = view-set_recipient val e h n in inl (n, e', written, fields)
    | inr other ↦ inr (ground (arith, other), set_recipient_refuses val e (ground (arith, other)))
  ],
)
