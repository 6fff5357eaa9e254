-- ===== src/Dmccoin.antt =====
-- abci/app/dmccoin: the application of accounts.
pub mod Kvs
pub mod Accounts
pub mod Tx
pub mod Execution
