-- ===== src/State.antt =====
-- The contract's storage of src/state.rs and of the items that the other sources declare, and the
-- actions on it. An `Item` is a cell that may be empty, an `Item` with suffixes and a `Keymap` are
-- functions from keys to cells; serialization is not modelled. A message that ends in an error
-- leaves the storage as it was, so an action has no state beside its error. The outputs that the
-- random generator has yet to give are a part of the state, so that they are consumed in order.
mod Monad
pub mod Minters
pub mod Allowances
pub mod Supply
pub mod Does
pub mod Frame
pub use Monad.*
