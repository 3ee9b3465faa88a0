-- ===== src/Execute.antt =====
-- The message handlers: src/execute_deposit_redeem.rs, src/execute_mint_burn.rs,
-- src/execute_transfer_send.rs, src/execute.rs and src/execute_admin.rs.
pub mod Types
pub mod Deposit
pub mod Allowance
pub mod MintBurn
pub mod Transfer
pub mod Send
pub mod Frame
pub mod Supply
pub mod Authority
pub mod Admin
pub mod Keys
