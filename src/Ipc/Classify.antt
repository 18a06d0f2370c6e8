-- ===== src/Ipc/Classify.antt =====
-- src/KeePassKeyWin.Provider/src/com/classify_rpc_error.rs: which errors mean a stale pipe, and the
-- clearing of a shared slot.
use kee_pass_key_win.Prelude.{Option, none, ◌≡◌, ℤ, Text, arith}
use kee_pass_key_win.World.{IoErrorKind, broken_pipe, connection_aborted}
use kee_pass_key_win.Ipc.ClientError.{ClientError, io, from_rpc}

pub data RpcErrorClass : Type 0 where
  stale other : RpcErrorClass

abbrev classify_kind : IoErrorKind → RpcErrorClass
classify_kind broken_pipe = stale
classify_kind connection_aborted = stale
classify_kind _ = other

unfoldable pub classify_rpc_error : ClientError → RpcErrorClass
classify_rpc_error (io e) = classify_kind e.kind
classify_rpc_error _ = other

-- The slot is a `Mutex<Option<T>>`; what it held is dropped.
unfoldable pub clear_slot : {T : Type 0} → Option T → Option T
clear_slot slot = none

-- An error that the plugin reports, whatever its code and message, is never taken for a stale
-- pipe, so it is not retried.
pub classify_rpc_error-from_rpc :
    (code : ℤ) (message : Text) → classify_rpc_error (from_rpc code message) ≡ other
unfolding classify_rpc_error from_rpc
classify_rpc_error-from_rpc code message = ground arith
