-- ===== src/Dwb/Nodes/Reading.antt =====
-- What `as_vec` reads from a chain.
use snip20_reference_impl.Common.{
  ℕ, zero, suc, ◌<◌, ◌≡◌, ◌≢◌, refl, sym, ap, ◌∙◌, true, false, inl, inr, List, [], ◌∷◌, arith,
  Option-cases, ltb, lt→ltb,
}
use snip20_reference_impl.Common.Bytes.{Bytes}
use snip20_reference_impl.Outcome.{Result, ok, err, out_of_fuel, not_found, or_err, Result-cases}
use snip20_reference_impl.Outcome.{◌>>=◌ as bind}
use snip20_reference_impl.Platform.{Platform, Documented}
use snip20_reference_impl.TxHistory.{
  Tx, TxCode, StoredTx, StoredTxAction, action_of_code, from_u8, into_tx_action, into_humanized,
}
use snip20_reference_impl.State.{Storage}
use snip20_reference_impl.Dwb.Types.{TxNode}
use snip20_reference_impl.Dwb.Nodes.{as_vec_loop, as_vec}
use snip20_reference_impl.Dwb.Nodes.Chain.{Chain, end, link}

-- The stored transactions under the ids, in their order, or the first one's error.
abbrev pub read_all : Platform → List ℕ → Storage → Result (List Tx)
read_all p [] s = ok []
read_all p (id ∷ ids) s = bind (or_err (s.transactions id) not_found) (λ stored.
    bind (into_humanized p stored id) (λ tx. bind (read_all p ids s) (λ rest. ok (tx ∷ rest))))

module _ (p : Platform) (doc : Documented p) where
  humanize_ne : (a : Bytes) → p.addr_humanize a ≢ err out_of_fuel
  humanize_ne a q = cc (doc.addr_humanize_error a out_of_fuel q)

  action_of_code_ne : (c : TxCode) (a : StoredTxAction) → action_of_code p c a ≢ err out_of_fuel
  unfolding action_of_code
  action_of_code_ne TxCode.transfer a q = grind (arith, humanize_ne)
  action_of_code_ne TxCode.mint a q = grind (arith, humanize_ne)
  action_of_code_ne TxCode.burn a q = grind (arith, humanize_ne)
  action_of_code_ne TxCode.deposit a q = cc
  action_of_code_ne TxCode.redeem a q = cc

  into_humanized_ne : (tx : StoredTx) (id : ℕ) → into_humanized p tx id ≢ err out_of_fuel
  unfolding into_humanized into_tx_action from_u8
  into_humanized_ne tx id h = grind (arith, action_of_code_ne)

  read_all_ne : (ids : List ℕ) (s : Storage) → read_all p ids s ≢ err out_of_fuel
  read_all_ne [] s q = absurd cc
  read_all_ne (id ∷ ids) s q = elim (Option-cases (s.transactions id)) [
    | inl missing ↦ absurd (ground (arith, missing))
    | inr (stored, has) ↦ elim (Result-cases (into_humanized p stored id)) [
      | inr (x, bad) ↦ into_humanized_ne stored id (bad ∙ ap err (ground (arith, has, bad)))
      | inl (tx, good) ↦ elim (Result-cases (read_all p ids s)) [
        | inr (x, bad) ↦ read_all_ne ids s (bad ∙ ap err (ground (arith, has, good, bad)))
        | inl (txs, read) ↦ absurd (ground (arith, has, good, read))
      ]
    ]
  ]

  -- Behind one transaction, where the reading from the next node is known.
  as_vec_rest :
      (fuel : ℕ) (s : Storage) (tx : Tx) {next_id : ℕ} {ids : List ℕ}
      → Chain s.tx_nodes next_id ids
      → ((next : TxNode) (ids' : List ℕ)
          → Chain s.tx_nodes next.next ids'
          → next.next < fuel
          → as_vec_loop p fuel next s ≡ read_all p (next.tx_id ∷ ids') s)
      → next_id < suc fuel
      → (elim (ltb 0 next_id) [
        | false ↦ ok (tx ∷ [])
        | true ↦
            bind
              (or_err (s.tx_nodes next_id) not_found)
              (λ next_node. bind (as_vec_loop p fuel next_node s) (λ rest. ok (tx ∷ rest)))
      ])
        ≡ bind (read_all p ids s) (λ rest. ok (tx ∷ rest))
  as_vec_rest fuel s tx (end e) ih h = rw e refl
  as_vec_rest fuel s tx (link {id} {node} {txs} pos q older rest) ih h =
      rw (lt→ltb 0 id pos, q) (rw (ih node txs rest (omega arith)) refl)

  as_vec_loop_exact :
      (fuel : ℕ) (node : TxNode) (s : Storage) (rest : List ℕ)
      → Chain s.tx_nodes node.next rest
      → node.next < fuel
      → as_vec_loop p fuel node s ≡ read_all p (node.tx_id ∷ rest) s
  unfolding as_vec_loop
  as_vec_loop_exact zero node s rest c h = absurd (omega arith)
  as_vec_loop_exact (suc fuel) node s rest c h = elim (Option-cases (s.transactions node.tx_id)) [
    | inl missing ↦ rw missing refl
    | inr (stored, q) ↦ rw q (elim (Result-cases (into_humanized p stored node.tx_id)) [
      | inr (e, bad) ↦ rw bad refl
      | inl (tx, good) ↦
          rw good (as_vec_rest fuel s tx c (λ next ids. as_vec_loop_exact fuel next s ids) h)
    ])
  ]

  -- From a node whose rest is a chain of ever older nodes, `as_vec` reads the stored transactions of the
  -- chain in its order, up to the first that is missing or unreadable, and never lacks fuel.
  pub as_vec_exact :
      (node : TxNode) (s : Storage) (rest : List ℕ)
      → Chain s.tx_nodes node.next rest
      → (as_vec p node s ≡ read_all p (node.tx_id ∷ rest) s) × (as_vec p node s ≢ err out_of_fuel)
  unfolding as_vec
  as_vec_exact node s rest c =
      let read : as_vec p node s ≡ read_all p (node.tx_id ∷ rest) s =
        as_vec_loop_exact (suc node.next) node s rest c (omega arith) in
      (read, λ q. read_all_ne (node.tx_id ∷ rest) s (sym read ∙ q))
