-- ===== src/Tests/Pages.antt =====
-- The theorems on queries at a trie with one account.
use snip20_reference_impl.Common.{
  ℕ, ◌+◌, ◌≡◌, refl, none, some, List, [], ◌∷◌, ◌++◌, arith, take, drop,
}
use snip20_reference_impl.Outcome.{ok, err, overflow}
use snip20_reference_impl.TxHistory.{
  Tx, TxAction, into_humanized, into_tx_action, action_of_code, from_u8, coin_from,
}
use snip20_reference_impl.Dwb.Nodes.{as_vec, as_vec_loop}
use snip20_reference_impl.Btbe.Entry.{history_len}
use snip20_reference_impl.Query.History.{list_at, page_txs}
use snip20_reference_impl.Query.Pages.{
  IsRead, newest, settled_by, page_txs_exact, page_txs_past_end,
}
use snip20_reference_impl.Tests.Setup.{platform, alice}
use snip20_reference_impl.Tests.Trie.{
  planted, of_alice, bundle, located, loaded, found, one_bundle, alice_IsHistory,
}

abbrev deposit_with : ℕ → Tx
deposit_with id = record {
  id = id;
  action = TxAction.deposit;
  coins = record { denom = "SSCRT"; amount = 1 };
  memo = none;
  block_time = 5;
  block_height = 1;
}

abbrev three : List Tx
three = deposit_with 3 ∷ deposit_with 2 ∷ deposit_with 1 ∷ []

reads_three : list_at platform 3 planted ≡ ok three
unfolding list_at as_vec as_vec_loop into_humanized into_tx_action action_of_code from_u8 coin_from
reads_three = refl

alice_IsRead : IsRead platform planted of_alice (λ i. bundle) (λ i. three)
alice_IsRead = record {
  heads = λ i lt. omega arith;
  lists = λ i lt. reads_three;
  counted = λ i lt. refl;
  first = λ lt. refl;
}

abbrev settled : ℕ
settled = settled_by (λ i. bundle) (history_len of_alice)

all_settled : settled ≡ 3
all_settled = rw one_bundle refl

-- One transaction waits in the buffer.
abbrev waiting : List Tx
waiting = deposit_with 9 ∷ []

page_txs_exact_example :
    page_txs platform alice (some of_alice) waiting 1 settled 0 2 planted
    ≡ ok (take 2 (drop 0 (waiting ++ newest (λ i. three) (history_len of_alice))))
page_txs_exact_example =
    page_txs_exact alice_IsHistory alice_IsRead alice located loaded found waiting waiting 0 2 2
      (λ h. refl) (omega arith) (omega arith) (omega (arith, all_settled))

page_txs_past_end_example :
    page_txs platform alice (some of_alice) [] 0 settled 10 (0 + settled) planted ≡ err overflow
page_txs_past_end_example =
    page_txs_past_end alice_IsHistory alice_IsRead alice located loaded found 0 10 []
      (omega (arith, one_bundle)) (omega arith) (omega (arith, all_settled))
