-- ===== src/World/Outside.antt =====
-- Everything that the provider calls and that is not in the repository, as one record of functions:
-- Windows, webauthn.dll, tokio's pipes, and the crates serde_json, base64, sha2, ciborium and
-- passkey-types. What a call answers may depend on all calls made before it, newest first. `V` is
-- `serde_json::Value`.
use kee_pass_key_win.Prelude.{ℕ, ℤ, Bool, Option, List, String, Text, Result}
use kee_pass_key_win.Cbor.{Value}
use kee_pass_key_win.World.Events.{
  IoError, UserVerificationRequest, UserVerificationRequest2, OutBuffer, CredentialDetails,
  AddAuthenticatorOptions, Event,
}

abbrev pub History : Type 0
History = List Event

-- RpcRequest, RpcErrorObj and RpcResponse of ipc/mod.rs
pub record RpcRequest (P : Type 0) : Type 0 where
  pub jsonrpc : String
  pub id : ℕ
  pub method : String
  pub params : P

pub record RpcErrorObj : Type 0 where
  pub code : ℤ
  pub message : Text

pub record RpcResponse (V : Type 0) : Type 0 where
  pub id : V
  pub result : Option V
  pub error : Option RpcErrorObj

-- HelloParams of `PipeClient::handshake`
pub record HelloParams : Type 0 where
  pub client_pkg_family_name : String
  pub handshake_nonce : Text
  pub op_sign_public_key_b64 : Text

-- What RegGetValueW leaves behind: the status, the type, the byte count and the buffer.
pub record RegReply : Type 0 where
  pub status : ℕ
  pub value_type : ℕ
  pub cb : ℕ
  pub buf : List ℕ

-- An HRESULT with the out-parameters of the call.
pub record BufferReply : Type 0 where
  pub hr : ℕ
  pub out : OutBuffer

pub record Externals (V : Type 0) : Type 0 where
  -- serde_json
  pub object : List (String × V) → V
  pub string : Text → V
  pub boolean : Bool → V
  pub null : V
  pub index : V → String → V
  pub as_str : V → Option Text
  pub as_bool : V → Option Bool
  pub as_array : V → Option (List V)
  pub request_to_string : RpcRequest V → Result Text Text
  pub hello_to_string : RpcRequest HelloParams → Result Text Text
  pub response_from_str : Text → Result Text (RpcResponse V)
  pub value_from_value : V → Result Text V
  -- base64, sha2, ciborium with passkey-types
  pub b64_encode : List ℕ → Text
  pub b64_decode : Text → Option (List ℕ)
  pub b64_url_decode : Text → Option (List ℕ)
  pub sha256 : List ℕ → List ℕ
  pub make_credential_user_name : List ℕ → Option Text
  pub into_writer : Value → List ℕ
  -- the named pipe
  pub open_pipe : History → ℕ → Result IoError ℕ
  pub write_all : History → ℕ → Text → Result IoError (Unit {0})
  pub flush : History → ℕ → Result IoError (Unit {0})
  pub read_line : History → ℕ → Result IoError Text
  -- Windows
  pub env_var : String → Option Text
  pub reg_get_value : History → RegReply
  pub load_library : History → String → Result Text ℕ
  pub get_proc_address : History → ℕ → String → Option ℕ
  pub read_memory : History → ℕ → ℕ → List ℕ
  pub co_initialize : History → ℕ
  pub co_task_mem_alloc : History → ℕ → ℕ
  -- functions of webauthn.dll, behind the pointers that `get_proc_address` gave
  pub call_perform_uv : History → ℕ → UserVerificationRequest → OutBuffer → BufferReply
  pub call_perform_uv2 : History → ℕ → UserVerificationRequest2 → OutBuffer → BufferReply
  pub call_get_key_refclsid : History → ℕ → BufferReply
  pub call_get_key_pwstr : History → ℕ → List ℕ → BufferReply
  pub call_add_credentials : History → ℕ → CredentialDetails → ℕ
  pub call_get_all_credentials : History → ℕ → BufferReply
  pub credential_detail : History → ℕ → ℕ → OutBuffer
  pub call_remove_credentials : History → ℕ → ℕ → ℕ → ℕ
  pub call_add_authenticator : History → ℕ → AddAuthenticatorOptions → BufferReply
  pub call_remove_authenticator : History → ℕ → ℕ
