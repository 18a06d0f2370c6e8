-- ===== src/Ipc.antt =====
-- The JSON-RPC client of src/KeePassKeyWin.Provider/src/ipc/mod.rs: its errors, a connection and
-- its calls.
pub mod ClientError
pub mod Client
pub mod Classify
pub mod ErrorCodes
pub mod Connecting
pub mod Calls
