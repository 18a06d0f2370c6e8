-- ===== src/Lib.antt =====
-- The KeePassKeyWin passkey provider, src/KeePassKeyWin.Provider: the process that Windows starts as a
-- COM server when a passkey is created or used, and that passes each operation on to the plugin in
-- KeePass over a named pipe. The C# side of the repository is not modelled.
--
-- How the parts work together. Windows asks the class factory (com/exe_server.rs, `ComObject`) for
-- an object. The first activation connects to the plugin's pipe and shakes hands (`Connection`, on
-- `Ipc`, `Registry` and `OpSignKey`); its state is then shared by all later objects, and a background
-- task brings the system's list of credentials in line with the vault (`Reconciliation`, on
-- `CredentialStore`). A method of an object (com/server.rs, `Authenticator`) asks the user
-- (`UserVerification`), then calls the plugin (`Retry`), and after a creation publishes the credential
-- (`AddCredentials`). `Server` is the whole as a relation of steps, `Lifetime` adds the objects and tasks
-- to it, and `ComServer` the message loop around it. `Registration` is the two commands
-- that make the provider known to Windows, `CommandLine` the choice of the command and the two commands
-- that try the plugin out.
--
-- Files, with paths under src/KeePassKeyWin.Provider/src:
--   Prelude           lists, results, native integers and text as code points, for all modules
--   Hresult           HRESULT codes, as `u32` bit patterns
--   World             what surrounds the process, and its state: `Process` holds the statics (BINDINGS
--                     twice, OP_SIGN_KEY_CACHE, SHARED_STATE), the allocations behind `Arc`, and every
--                     call made so far; `Externals` is what is not in the repository
--   Ipc               ipc/mod.rs and com/classify_rpc_error.rs
--   Layout            how the structs of com/types.rs lie in memory
--   Utf16, Hex, Guid  buffers, formats and identifiers of com/server.rs, com/types.rs, com/exe_server.rs
--   Registry          com/reg_read_error.rs, `read_handshake_nonce` of com/exe_server.rs
--   Dll               loading webauthn.dll and resolving its symbols
--   OpSignKey         com/request_sig.rs
--   Connection        `connect_and_handshake`, `clear_shared_state` of com/exe_server.rs
--   Retry             `take_call_with_retry` of com/server.rs
--   UserVerification  com/webauthn_ext.rs, com/uv_fallback.rs, com/uv_override.rs
--   CredentialStore   com/webauthnplugin_ext.rs
--   AddCredentials    `parse_add_credentials_fields`, `try_add_credentials` of com/server.rs
--   Authenticator     `dispatch_operation`, `cancel_operation`, `get_lock_status` of com/server.rs
--   ComObject         reference counts of com/server.rs, class factory of com/exe_server.rs
--   Reconciliation    `reconcile_vault_with_os` of com/exe_server.rs
--   Registration      `cmd_register`, `cmd_unregister` of com/exe_server.rs
--   Server            the calls of Windows in any order, each as a whole
--   Flight            the same with the calls of the plugin cut into stages, as the threads see them:
--                     while `sta_block_on` waits, Windows makes other calls on the same thread
--   Protocol          what may be written to the plugin's pipe, on the calls made alone; `Flight` keeps to it
--   StaWait           `sta_block_on` of com/exe_server.rs
--   Lifetime          the whole server: the objects with the references that Windows holds to them, the
--                     calls of their methods, and the background tasks that wait
--   ComServer         `run_com_server` of com/exe_server.rs
--   LogFilter         log_filter.rs
--   Tracing           `init_tracing` of main.rs
--   CommandLine       the other functions of main.rs; `CommandExternals` is what it calls besides
--   Ctap              ctap/mod.rs
--   AuthenticatorInfo com/authenticator_info.rs, on the tree of `Cbor`
--   Examples          the theorems at a concrete plugin and system
--
-- What is assumed. Nothing is assumed of Windows, webauthn.dll, tokio or the crates: each call of
-- them is a field of `Externals` (of `CommandExternals`, `ServerExternals` and `TracingExternals`
-- in the modules with these names), and its answer may depend on all calls before it, also how many
-- references to the class factory COM takes and gives back. What a theorem needs of them stands
-- among its hypotheses. A function on the process takes it and gives it back, errors being values.
-- No fuel is used: every loop of the source is over a list or a count that is known when it starts,
-- but for the message loop, which is a function of the messages that have come.
--
-- What is not modelled. In `Flight` the steps that leave the pipe alone are moves to any process
-- that they could leave, in `Lifetime` counts that would wrap around are left out, and in
-- `StaWait`, where SetEvent may fail, the failures of CreateEventW and CoWaitForMultipleHandles.
-- `Layout` is about the places of the fields alone: elsewhere `World` holds the structs as records
-- of their values. The Unix branch of the transport, log lines and printing are left out, panics (a
-- poisoned lock, a counter that overflows in a debug build) too, but for those of `run_com_server`
-- and of the future that `sta_block_on` runs.
pub mod Prelude
pub mod Hresult
pub mod Layout
pub mod World
pub mod Ipc
pub mod Utf16
pub mod Hex
pub mod Guid
pub mod Registry
pub mod Dll
pub mod OpSignKey
pub mod Connection
pub mod Retry
pub mod UserVerification
pub mod CredentialStore
pub mod AddCredentials
pub mod Authenticator
pub mod ComObject
pub mod Reconciliation
pub mod Registration
pub mod Server
pub mod Flight
pub mod Protocol
pub mod StaWait
pub mod LogFilter
pub mod Examples
pub mod Ctap
pub mod CommandLine
pub mod Cbor
pub mod AuthenticatorInfo
pub mod Tracing
pub mod Lifetime
pub mod ComServer
