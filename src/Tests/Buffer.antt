-- ===== src/Tests/Buffer.antt =====
-- The theorems on the delayed write buffer at concrete buffers.
use snip20_reference_impl.Common.{
  ℕ, zero, suc, ◌-◌, ◌≡◌, ◌≢◌, refl, none, some, List, [], ◌∷◌, ◌++◌, arith, replicate, get_elem?,
}
use snip20_reference_impl.Common.Bytes.{bytes_eq, from_be_bytes}
use snip20_reference_impl.Outcome.{ok, err, overflow, out_of_fuel}
use snip20_reference_impl.State.{Storage, update}
use snip20_reference_impl.TxHistory.{
  TxAction, StoredTx, stored_mint, stored_deposit, into_humanized, into_tx_action, action_of_code,
  from_u8, to_u8, stored_coin_from, coin_from,
}
use snip20_reference_impl.Dwb.Entry.{DwbEntry, recipient, head_node, list_len}
use snip20_reference_impl.Dwb.Types.{DelayedWriteBuffer}
use snip20_reference_impl.Dwb.Nodes.{add_tx_node, as_vec}
use snip20_reference_impl.Dwb.Nodes.Chain.{IsListed, add_tx_node-IsListed, end, link}
use snip20_reference_impl.Dwb.Nodes.Reading.{read_all, as_vec_exact}
use snip20_reference_impl.Dwb.Random.{draw_below, random_in_range}
use snip20_reference_impl.Dwb.Buffer.{
  dwb_len, match_loop, recipient_match, choose_indexes, add_recipient,
}
use snip20_reference_impl.Dwb.Buffer.Indexes.{
  settle_index, write_index, places_taken, choose_indexes_exact,
}
use snip20_reference_impl.Dwb.Buffer.Match.{Absent, OnlyAt, recipient_match_exact}
use snip20_reference_impl.Dwb.Buffer.Full.{add_recipient_full}
use snip20_reference_impl.Tests.Setup.{platform, platform-Documented, alice, bob, fresh}

abbrev dummy : DwbEntry
dummy = replicate 35 0

abbrev of_alice : DwbEntry
of_alice = alice ++ replicate 15 0

abbrev full_of_alice : DwbEntry
full_of_alice = alice ++ (replicate 13 0 ++ (255 ∷ 255 ∷ []))

-- One place is taken, by alice, and one is free.
abbrev entries : List DwbEntry
entries = dummy ∷ of_alice ∷ dummy ∷ []

abbrev buffer : DelayedWriteBuffer
buffer = record { empty_space_counter = 1; entries = entries }

abbrev drawing : Storage
drawing = record fresh { draws = 3 ∷ [] }

draws_two : random_in_range 1 (dwb_len platform) drawing.draws ≡ ok (2, [])
unfolding random_in_range draw_below platform
draws_two = refl

no_list : list_len of_alice ≡ 0
unfolding list_len from_be_bytes
no_list = refl

capacity_of_platform : platform.dwb_capacity ≡ 2
unfolding platform
capacity_of_platform = refl

choose_indexes_exact_example : choose_indexes platform buffer 1 drawing ≡ (
    let settle = settle_index 1 1 (list_len of_alice) 2 in
    ok (
      (settle, write_index 1 1 (dwb_len platform - 1) settle 2, places_taken 1 1),
      record drawing { draws = [] },
    ))
choose_indexes_exact_example =
    choose_indexes_exact platform buffer drawing 1 2 [] platform-Documented (omega arith)
      (omega (arith, capacity_of_platform)) refl (omega (arith, no_list)) draws_two

only_at_first :
    (j : ℕ) (e : DwbEntry)
    → get_elem? (of_alice ∷ dummy ∷ []) j ≡ some e
    → recipient e ≡ alice
    → j ≡ 0
unfolding recipient
only_at_first zero e q r = refl
only_at_first (suc zero) e q r = cc
only_at_first (suc (suc k)) e q r = cc

only_alice : OnlyAt platform platform-Documented alice (of_alice ∷ dummy ∷ []) 0
unfolding recipient
only_alice = ((of_alice, refl, refl), only_at_first)

recipient_match_exact_example :
    (Absent platform platform-Documented alice (of_alice ∷ dummy ∷ [])
      → recipient_match platform entries alice ≡ 0)
    × ((i : ℕ)
        → OnlyAt platform platform-Documented alice (of_alice ∷ dummy ∷ []) i
        → recipient_match platform entries alice ≡ suc i)
recipient_match_exact_example =
    recipient_match_exact platform platform-Documented alice dummy (of_alice ∷ dummy ∷ [])

abbrev counting : Storage
counting = record fresh { tx_nodes_count = some 0 }

alice-IsListed : IsListed counting 0 of_alice []
unfolding head_node list_len from_be_bytes
alice-IsListed = record {
  entry = record { size = refl; bytes = omega arith };
  count = refl;
  older = omega arith;
  chain = end refl;
  counted = refl;
}

add_tx_node-IsListed_example :
    (e' : DwbEntry) × (s' : Storage) × (add_tx_node 9 of_alice counting ≡ ok ((1, e'), s'))
    × IsListed s' 1 e' (9 ∷ [])
add_tx_node-IsListed_example =
    add_tx_node-IsListed 9 0 of_alice counting [] alice-IsListed (omega arith)
      (omega (arith, no_list))

-- A mint and, before it, a deposit, in a list of two nodes.
abbrev of_minting : StoredTx
of_minting = record {
  action = stored_mint alice bob;
  coins = record { denom = "SSCRT"; amount = 3 };
  memo = none;
  block_time = 5;
  block_height = 1;
}

abbrev of_deposit : StoredTx
of_deposit = record {
  action = stored_deposit;
  coins = record { denom = "SSCRT"; amount = 2 };
  memo = none;
  block_time = 4;
  block_height = 1;
}

abbrev two_listed : Storage
two_listed = record fresh {
  tx_nodes = update fresh.tx_nodes 1 (record { tx_id = 4; next = 0 });
  transactions = update (update fresh.transactions 9 of_minting) 4 of_deposit;
}

as_vec_exact_example :
    (as_vec platform (record { tx_id = 9; next = 1 }) two_listed
      ≡ read_all platform (9 ∷ 4 ∷ []) two_listed)
    × (as_vec platform (record { tx_id = 9; next = 1 }) two_listed ≢ err out_of_fuel)
as_vec_exact_example =
    as_vec_exact platform platform-Documented (record { tx_id = 9; next = 1 }) two_listed (4 ∷ [])
      (link (omega arith) refl (omega arith) (end refl))

two_listed_read :
    read_all platform (9 ∷ 4 ∷ []) two_listed
    ≡ ok (
        record {
          id = 9;
          action = TxAction.mint "alice" "bob";
          coins = record { denom = "SSCRT"; amount = 3 };
          memo = none;
          block_time = 5;
          block_height = 1;
        }
        ∷ record {
          id = 4;
          action = TxAction.deposit;
          coins = record { denom = "SSCRT"; amount = 2 };
          memo = none;
          block_time = 4;
          block_height = 1;
        }
        ∷ [])
unfolding platform into_humanized into_tx_action action_of_code from_u8 to_u8 stored_mint
    stored_deposit bytes_eq stored_coin_from coin_from
two_listed_read = refl

abbrev full_buffer : DelayedWriteBuffer
full_buffer = record { empty_space_counter = 1; entries = dummy ∷ full_of_alice ∷ dummy ∷ [] }

alice_first : recipient_match platform full_buffer.entries alice ≡ 1
unfolding recipient_match match_loop recipient platform bytes_eq
alice_first = refl

list_is_full : list_len full_of_alice ≡ 65535
unfolding list_len from_be_bytes
list_is_full = refl

add_recipient_full_example : add_recipient platform full_buffer alice 9 5 counting ≡ err overflow
add_recipient_full_example =
    add_recipient_full platform full_buffer alice 9 5 0 counting refl (omega arith) refl
      (rw alice_first refl) (record { size = refl; bytes = omega arith }) list_is_full
