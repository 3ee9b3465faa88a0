-- ===== src/Tests/Trie.antt =====
-- The theorems on the trie at a trie of two leaves.
use snip20_reference_impl.Common.{
  ℕ, zero, suc, ◌-◌, ◌<◌, ◌≡◌, refl, none, some, [], ◌∷◌, ◌++◌, arith, replicate, ◌==◌,
  if◌then◌else◌,
}
use snip20_reference_impl.Common.Bytes.{bytes_eq, from_be_bytes}
use snip20_reference_impl.Outcome.{ok}
use snip20_reference_impl.State.{Storage}
use snip20_reference_impl.TxHistory.{StoredTx}
use snip20_reference_impl.Dwb.Types.{TxBundle}
use snip20_reference_impl.Word.{u64_max, saturating_add}
use snip20_reference_impl.Dwb.Entry as Pending
use snip20_reference_impl.Dwb.Entry.{DwbEntry}
use snip20_reference_impl.Btbe.Entry.{balance}
use snip20_reference_impl.Btbe.Bundles.{amount_u64}
use snip20_reference_impl.Btbe.History.{merge_dwb_entry}
use snip20_reference_impl.Btbe.History.Merge.{merged_bundle}
use snip20_reference_impl.Btbe.History.Extends.{extend, merge_dwb_entry-IsHistory}
use snip20_reference_impl.Btbe.Types.{BtbeBucket, BitwiseTrieNode}
use snip20_reference_impl.Btbe.Entry.{StoredEntry, address, history_len}
use snip20_reference_impl.Btbe.Bundles.{
  bucketing_salt_bytes, get_tx_bundle_at, get_tx_bundle_at_unchecked,
}
use snip20_reference_impl.Btbe.Bucket.{constant_time_find_address, find_loop}
use snip20_reference_impl.Btbe.Trie.{
  locate_btbe_node, load_node, locate_loop, node_bucket, find_start_bundle,
}
use snip20_reference_impl.Btbe.Trie.Locate.{Walk, Ends, locate_btbe_node_exact}
use snip20_reference_impl.Btbe.Trie.Search.{IsHistory, find_start_bundle_exact}
use snip20_reference_impl.Tests.Setup.{platform, platform-Documented, alice, fresh, pad}

-- Alice's hash begins with a 0 bit, bob's with a 1.
abbrev branch : BitwiseTrieNode
branch = record { left = 2; right = 3; bucket = 0 }

abbrev pub left_leaf : BitwiseTrieNode
left_leaf = record { left = 0; right = 0; bucket = 2 }

abbrev right_leaf : BitwiseTrieNode
right_leaf = record { left = 0; right = 0; bucket = 3 }

-- A balance of 5 and one bundle.
abbrev pub of_alice : StoredEntry
of_alice = alice ++ (0 ∷ 0 ∷ 0 ∷ 0 ∷ 0 ∷ 0 ∷ 0 ∷ 5 ∷ 0 ∷ 0 ∷ 0 ∷ 1 ∷ [])

abbrev pub alice_bucket : BtbeBucket
alice_bucket = record { capacity = 1; entries = of_alice ∷ replicate 32 0 ∷ [] }

-- Three transactions.
abbrev pub bundle : TxBundle
bundle = record { head_node = 3; list_len = 3; offset = 0 }

abbrev a_deposit : StoredTx
a_deposit = record {
  action = record { tx_type = 3; address1 = none; address2 = none; address3 = none };
  coins = record { denom = "SSCRT"; amount = 1 };
  memo = none;
  block_time = 5;
  block_height = 1;
}

abbrev pub planted : Storage
planted = record fresh {
  internal_secret_sensitive = some (1 ∷ []);
  btbe_trie_nodes = λ id.
      if id == 1
      then some branch
      else if id == 2
      then some left_leaf
      else if id == 3
      then some right_leaf
      else none;
  btbe_buckets = λ id. if id == 2 then some alice_bucket else none;
  btbe_entry_history = λ a i. some bundle;
  tx_nodes = λ id. some (record { tx_id = id; next = id - 1 });
  transactions = λ id. some a_deposit;
}

alice_hash :
    platform.hkdf_sha_256 bucketing_salt_bytes (1 ∷ []) alice 32
    ≡ ok (replicate 20 7 ++ replicate 12 0)
unfolding platform pad
alice_hash = refl

locate_btbe_node_exact_example :
    Ends planted
      (replicate 20 7 ++ replicate 12 0)
      branch
      1
      0
      (locate_btbe_node platform alice planted)
    × ((last : BitwiseTrieNode) (last_id last_pos : ℕ)
        → Walk planted (replicate 20 7 ++ replicate 12 0) branch 1 0 last last_id last_pos
        → locate_btbe_node platform alice planted ≡ ok (last, last_id, last_pos))
locate_btbe_node_exact_example =
    locate_btbe_node_exact platform platform-Documented alice planted refl alice_hash refl

pub located : locate_btbe_node platform alice planted ≡ ok (left_leaf, 2, 1)
unfolding locate_btbe_node load_node locate_loop platform pad
located = refl

pub loaded : node_bucket left_leaf planted ≡ ok alice_bucket
unfolding node_bucket
loaded = refl

pub found : constant_time_find_address platform alice_bucket alice ≡ ok (some (0, of_alice))
unfolding constant_time_find_address find_loop address platform bytes_eq
found = refl

pub one_bundle : history_len of_alice ≡ 1
unfolding history_len from_be_bytes
one_bundle = refl

read_bundle : get_tx_bundle_at of_alice 0 planted ≡ ok bundle
unfolding get_tx_bundle_at get_tx_bundle_at_unchecked history_len from_be_bytes address
read_bundle = refl

pub alice_IsHistory : IsHistory planted of_alice (λ i. bundle)
alice_IsHistory = record {
  stored = λ i h.
      elim i as (λ k. k < history_len of_alice → get_tx_bundle_at of_alice k planted ≡ ok bundle) [
        | zero ↦ λ q. read_bundle
        | suc k ↦ λ q. absurd (omega (arith, one_bundle))
      ]
        h;
  contiguous = λ i h. absurd (omega (arith, one_bundle));
  fits = λ i h. omega arith;
  short = omega (arith, one_bundle);
}

find_start_bundle_exact_example :
    find_start_bundle platform alice 1 planted ≡ ok (some (0, bundle, 3 - (1 - 0) - 1))
find_start_bundle_exact_example =
    find_start_bundle_exact platform alice planted (λ i. bundle) located loaded found 1 0
      alice_IsHistory (omega (arith, one_bundle)) (omega arith, omega arith)

-- Alice has received 2 in one transaction.
abbrev two_for_alice : DwbEntry
two_for_alice = alice ++ (0 ∷ 0 ∷ 0 ∷ 0 ∷ 0 ∷ 0 ∷ 0 ∷ 2 ∷ 0 ∷ 0 ∷ 0 ∷ 0 ∷ 9 ∷ 0 ∷ 1 ∷ [])

fields :
    (balance of_alice ≡ 5)
    × (Pending.amount two_for_alice ≡ 2)
    × (Pending.head_node two_for_alice ≡ 9)
    × (Pending.list_len two_for_alice ≡ 1)
unfolding balance Pending.amount Pending.head_node Pending.list_len from_be_bytes
fields = (refl, refl, refl, refl)

spends_one : amount_u64 (some 1) ≡ ok 1
unfolding amount_u64
spends_one = refl

merge_dwb_entry-IsHistory_example :
    let n = history_len of_alice in
    (e' : StoredEntry) × (s' : Storage) × (merge_dwb_entry two_for_alice (some 1) of_alice planted
      ≡ ok (e', s'))
    × (address e' ≡ address of_alice)
    × (balance e' ≡ saturating_add u64_max (balance of_alice) (Pending.amount two_for_alice) - 1)
    × IsHistory s' e' (extend n (λ i. bundle) (merged_bundle two_for_alice bundle))
merge_dwb_entry-IsHistory_example =
    merge_dwb_entry-IsHistory two_for_alice (some 1) of_alice planted 1 (λ i. bundle)
      (record { size = refl; bytes = omega arith }) alice_IsHistory (omega (arith, one_bundle))
      (omega (arith, one_bundle)) (omega (arith, fields.1)) (omega (arith, fields.2)) spends_one
      (ground (arith, fields.0, fields.1)) (omega (arith, fields.3))
