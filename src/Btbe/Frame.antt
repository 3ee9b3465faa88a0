-- ===== src/Btbe/Frame.antt =====
-- What settling an entry leaves as it is.
use snip20_reference_impl.Common.{
  ℕ, ◌+◌, if◌then◌else◌, zero, suc, Bool, true, false, Option, none, some, inl, inr, Bool-cases,
  ◌==◌,
}
use snip20_reference_impl.Common.Bytes.{Bytes}
use snip20_reference_impl.Outcome.{out_of_fuel, store_bucket_to_branch}
use snip20_reference_impl.Platform.{Platform}
use snip20_reference_impl.Dwb.Types.{TxBundle}
use snip20_reference_impl.Dwb.Entry.{DwbEntry}
use snip20_reference_impl.State.{◌>>=◌, lift}
use snip20_reference_impl.State.Frame.{Keeps, bind-Keeps, lift-Keeps, raise-Keeps, frame, rules}
use snip20_reference_impl.Btbe.Types.{BtbeBucket, BitwiseTrieNode}
use snip20_reference_impl.Btbe.Entry.{StoredEntry}
use snip20_reference_impl.Btbe.Bucket.{add_entry}
use snip20_reference_impl.Btbe.Bundles.{routes_to_right_node}
use snip20_reference_impl.Btbe.History.{
  set_tx_bundle_at_unchecked, push_tx_bundle, from_dwb_entry, merge_dwb_entry,
}
use snip20_reference_impl.Btbe.Settle.{
  save_bucket, save_node, set_and_save_bucket, split_node, settle_found, settle_new, insert_loop,
  settle_dwb_entry,
}

push_tx_bundle-Keeps : (bundle : TxBundle) (e : StoredEntry) → Keeps rules (push_tx_bundle bundle e)
unfolding push_tx_bundle set_tx_bundle_at_unchecked
push_tx_bundle-Keeps bundle e = search frame

from_dwb_entry-Keeps : (e : DwbEntry) (spent : Option ℕ) → Keeps rules (from_dwb_entry e spent)
unfolding from_dwb_entry
from_dwb_entry-Keeps e spent = search (frame, push_tx_bundle-Keeps)

merge_dwb_entry-Keeps :
    (e : DwbEntry) (spent : Option ℕ) (entry : StoredEntry)
    → Keeps rules (merge_dwb_entry e spent entry)
unfolding merge_dwb_entry
merge_dwb_entry-Keeps e spent entry = search (frame, push_tx_bundle-Keeps) depth 20

save_bucket-Keeps : (id : ℕ) (b : BtbeBucket) → Keeps rules (save_bucket id b)
unfolding save_bucket
save_bucket-Keeps id b = search frame

save_node-Keeps : (id : ℕ) (n : BitwiseTrieNode) → Keeps rules (save_node id n)
unfolding save_node
save_node-Keeps id n = search frame

set_and_save_bucket-Keeps :
    (n : BitwiseTrieNode) (b : BtbeBucket) → Keeps rules (set_and_save_bucket n b)
unfolding set_and_save_bucket
set_and_save_bucket-Keeps n b = elim (Bool-cases (n.bucket == 0)) [
  | inl e ↦ rw e (raise-Keeps store_bucket_to_branch)
  | inr e ↦ rw e (save_bucket-Keeps n.bucket b)
]

module _ (p : Platform) where
  split_node-Keeps :
      (secret : Bytes) (node : BitwiseTrieNode) (node_id : ℕ) (b : BtbeBucket) (bit_pos : ℕ)
      → Keeps rules (split_node p secret node node_id b bit_pos)
  unfolding split_node
  split_node-Keeps secret node node_id b bit_pos =
      search (frame, save_bucket-Keeps, save_node-Keeps) depth 30

  add_or_split-Keeps :
      (fuel : ℕ) (secret : Bytes) (e : StoredEntry) (node : BitwiseTrieNode) (node_id : ℕ)
      (b : BtbeBucket) (bit_pos : ℕ) (added : Bool × BtbeBucket)
      → ((node' : BitwiseTrieNode) (id' : ℕ) (b' : BtbeBucket)
          → Keeps rules (insert_loop p fuel secret e node' id' b' (bit_pos + 1)))
      → Keeps rules (elim (added.0) [
        | true ↦ set_and_save_bucket node added.1
        | false ↦ (do
          halves ← split_node p secret node node_id b bit_pos
          right ← lift (routes_to_right_node p e bit_pos secret)
          let side = if right then halves.1 else halves.0
          insert_loop p fuel secret e side.0 side.1 side.2 (bit_pos + 1))
      ])
  add_or_split-Keeps fuel secret e node node_id b bit_pos (true, b') ih =
      set_and_save_bucket-Keeps node b'
  add_or_split-Keeps fuel secret e node node_id b bit_pos (false, b') ih =
      search (frame, split_node-Keeps, ih)

  insert_loop-Keeps :
      (fuel : ℕ) (secret : Bytes) (e : StoredEntry) (node : BitwiseTrieNode) (node_id : ℕ)
      (b : BtbeBucket) (bit_pos : ℕ)
      → Keeps rules (insert_loop p fuel secret e node node_id b bit_pos)
  unfolding insert_loop
  insert_loop-Keeps zero secret e node node_id b bit_pos = raise-Keeps out_of_fuel
  insert_loop-Keeps (suc fuel) secret e node node_id b bit_pos =
      bind-Keeps (lift-Keeps (add_entry p b e)) (λ added.
        add_or_split-Keeps fuel secret e node node_id b bit_pos added
          (λ node' id' b'. insert_loop-Keeps fuel secret e node' id' b' (bit_pos + 1)))

  settle_at-Keeps :
      (e : DwbEntry) (spent : Option ℕ) (node : BitwiseTrieNode) (node_id : ℕ) (b : BtbeBucket)
      (bit_pos : ℕ) (found : Option (ℕ × StoredEntry))
      → Keeps rules (elim found [
        | some (idx, entry) ↦ settle_found p e spent node b idx entry
        | none ↦ settle_new p e spent node node_id b bit_pos
      ])
  unfolding settle_found settle_new
  settle_at-Keeps e spent node node_id b bit_pos (some (idx, entry)) =
      search (frame, merge_dwb_entry-Keeps, set_and_save_bucket-Keeps)
  settle_at-Keeps e spent node node_id b bit_pos none =
      search (frame, from_dwb_entry-Keeps, insert_loop-Keeps)

  pub settle_dwb_entry-Keeps :
      (e : DwbEntry) (spent : Option ℕ) → Keeps rules (settle_dwb_entry p e spent)
  unfolding settle_dwb_entry
  settle_dwb_entry-Keeps e spent = search (frame, settle_at-Keeps)
