-- ===== src/Lib.antt =====
-- A SNIP-20 token whose balances are kept in an encrypted store without revealing, by the pattern
-- of its reads and writes, who is paid. A payment is first put into the delayed write buffer
-- (src/dwb.rs): a fixed number of entries, each with a recipient, an amount and the head of a
-- linked list of transactions. Later, an entry is settled into the bitwise trie of bucketed entries
-- (src/btbe.rs), where a leaf is found by the bits of a hash of the address, and holds a bucket of
-- entries with a balance and a history of bundles, each bundle one list of transactions. A
-- spender's entry is taken out of the buffer and settled at once, since its balance has to be
-- known.
--
-- Common has the numbers' tests, lists, bytes in big-endian order and their laws; Outcome the
-- errors, one constructor for each place where the source makes one, and the panics (overflow and
-- index_out_of_bounds; overflow checks are on in the release profile of Cargo.toml); Word the
-- arithmetic of the machine's numbers; ConstantTime the selections without branches of src/dwb.rs.
-- Platform holds what the contract calls and this repository does not contain: the capacities that
-- build.rs writes, the comparison in constant time, the key derivation HKDF, the chain's functions
-- on addresses and its bank, and the generator that hides the ids of transactions; Documented says
-- what is relied on of them. Toolkit holds the functions of secret-toolkit on viewing keys, permits
-- and channels, which work on raw storage of their own.
--
-- State.Monad is the storage as one record with a field for each stored item, and actions on it
-- that may fail. State.Minters, State.Allowances and State.Supply are the stores of src/state.rs.
-- TxHistory and TxHistory.Store are src/transaction_history.rs. Dwb.Entry, Dwb.Types, Dwb.Nodes,
-- Dwb.Random and Dwb.Buffer are src/dwb.rs: an entry is its bytes, with a getter and a setter for
-- each field; the random generator is the list of its outputs to come, in the storage. Btbe.Entry,
-- Btbe.Types, Btbe.Bundles, Btbe.History, Btbe.Bucket, Btbe.Trie and Btbe.Settle are src/btbe.rs.
-- Execute.Types has what a handler is given and answers; Execute.Deposit, Execute.MintBurn,
-- Execute.Transfer, Execute.Allowance, Execute.Keys and Execute.Admin are the handlers of
-- src/execute_deposit_redeem.rs, src/execute_mint_burn.rs, src/execute_transfer_send.rs,
-- src/execute.rs and src/execute_admin.rs. Query and Query.History are src/query.rs; Query.Balance
-- has what an account is told as its balance, and Query.Pages the pages of its transactions as
-- parts of one list. Execute.Send has the sends of src/execute_transfer_send.rs with the messages
-- of src/receiver.rs, and Contract is execute and admin_execute of src/contract.rs with the
-- messages of src/msg.rs, and Contract.Instantiate is instantiate. A function has its name in the
-- source; a part of one that is a loop or a block has a name of its own.
--
-- State.Frame has the rules by which an action is shown to leave a part of the storage as it is;
-- Btbe.Frame, Dwb.Frame, Execute.Frame and Execute.Transfer.Frame apply them to each operation, and
-- Execute.Supply follows the supply through the messages, up to whole sequences of them in
-- Execute.Supply.History; Btbe.History.Merge and Btbe.History.Extends follow the history of an
-- account, and Btbe.History.Balance its balance; Execute.Authority has the switches and the minters
-- that these need; Execute.Send.Callback relates a send to the transfer, Execute.Send.Frame is what
-- sends leave as it is; Contract.Frame is what the handlers leave of the settings, Contract.Stopped
-- and Contract.Authority say what a stopped contract does and what only the admin does, and
-- Contract.Instantiate.Required and Contract.Instantiate.Started how a contract starts.
--
-- State.Does has rules for what an action keeps and returns. Btbe.Bucket.Matches and
-- Btbe.Bucket.Invariant are what a bucket has for an address; Btbe.Trie.Invariant is what the trie
-- in storage satisfies and the balances that it holds; Btbe.Settle.Rewrite, Btbe.Settle.Route,
-- Btbe.Settle.Split, Btbe.Settle.Halved, Btbe.Settle.Steps and Btbe.Settle.Insert follow one
-- bucket's writing, the routing of a full bucket's entries, the branch that its leaf becomes, and
-- the loop over these; Btbe.Settle.Ledger and Btbe.Settle.Start state settling, the start and the
-- reading on balances.
--
-- The walk down the trie runs on 257 steps, since a hash of 32 bytes has 256 bits and a read behind
-- them panics; the search in a history on two steps more than the history is long; a list of nodes
-- is read on one step more than the id of its next node, since ids decrease along it.
--
-- Not modelled: the query entry with its viewing keys and permits (src/contract.rs), the queries of
-- src/query.rs by pages of allowances, on channels and on revoked permits, the encoding and
-- encryption of notifications (src/notifications.rs), so that a failure of them is none here, the
-- messages' formats and paddings (src/msg.rs) and the tracking of gas. Most of their work is calls
-- of secret-toolkit.
pub mod Common
pub mod Outcome
pub mod Word
pub mod ConstantTime
pub mod Platform
pub mod Dwb
pub mod Btbe
pub mod TxHistory
pub mod State
pub mod Execute
pub mod Query
pub mod Toolkit
pub mod Contract
mod Tests
