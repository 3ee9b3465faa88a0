-- ===== src/Tests.antt =====
-- Tests of the modules at concrete inputs.
mod Setup
mod Basics
mod Buffer
mod Tokens
mod Trie
mod Ledger
mod Pages
mod Runs
mod Dispatch
mod Start
