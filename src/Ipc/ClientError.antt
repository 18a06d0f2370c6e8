-- ===== src/Ipc/ClientError.antt =====
-- `ClientError` of src/KeePassKeyWin.Provider/src/ipc/mod.rs and its reading of RPC error codes.
use kee_pass_key_win.Prelude.{ℤ, minus, eq_ℤ, Text, ◌||◌, if◌then◌else◌}
use kee_pass_key_win.World.{IoError}

pub data ClientError : Type 0 where
  timeout : ClientError
  io : IoError → ClientError
  json : Text → ClientError
  vault_locked no_credentials client_unauthorized unsupported_algorithm : ClientError
  credential_excluded invalid_option : ClientError
  invalid_request : Text → ClientError
  internal : Text → ClientError
  rpc_error : ℤ → Text → ClientError

-- ClientError::from_rpc
unfoldable pub from_rpc : ℤ → Text → ClientError
from_rpc code message =
    if eq_ℤ code (minus 32010)
    then vault_locked
    else if eq_ℤ code (minus 32020)
    then no_credentials
    else if eq_ℤ code (minus 32030)
    then unsupported_algorithm
    else if eq_ℤ code (minus 32031)
    then credential_excluded
    else if eq_ℤ code (minus 32041)
    then invalid_option
    else if eq_ℤ code (minus 32000) || eq_ℤ code (minus 32001)
    then client_unauthorized
    else if eq_ℤ code (minus 32600) || eq_ℤ code (minus 32602)
    then invalid_request message
    else if eq_ℤ code (minus 32603)
    then internal message
    else rpc_error code message
