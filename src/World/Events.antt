-- ===== src/World/Events.antt =====
-- The data that crosses the border of the process, and the calls that the process has made.
-- The `repr(C)` structs of src/KeePassKeyWin.Provider/src/com/types.rs are held with the buffers
-- that their pointers lead to. A pointer that the system hands over is a number, and 0 is null.
use kee_pass_key_win.Prelude.{ℕ, List, String, Text}

-- `std::io::Error`
pub data IoErrorKind : Type 0 where
  broken_pipe connection_aborted unexpected_eof not_connected : IoErrorKind
  other_kind : ℕ → IoErrorKind

pub record IoError : Type 0 where
  pub kind : IoErrorKind
  pub message : Text

pub record Guid : Type 0 where
  pub data1 : ℕ
  pub data2 : ℕ
  pub data3 : ℕ
  pub data4 : List ℕ

-- WebauthnPluginUserVerificationRequest
pub record UserVerificationRequest : Type 0 where
  pub hwnd : ℕ
  pub transaction_id : Guid
  pub username : List ℕ
  pub display_hint : List ℕ

-- WebauthnPluginUserVerificationRequest2
pub record UserVerificationRequest2 : Type 0 where
  pub hwnd : ℕ
  pub transaction_id : Guid
  pub username : List ℕ
  pub display_hint : List ℕ
  pub cb_buffer_to_sign : ℕ
  pub buffer_to_sign : List ℕ

-- The out-parameters `*cb_response` and `*pp_response`.
pub record OutBuffer : Type 0 where
  pub cb : ℕ
  pub ptr : ℕ

-- WebauthnPluginCredentialDetails
pub record CredentialDetails : Type 0 where
  pub cb_credential_id : ℕ
  pub credential_id : List ℕ
  pub rp_id : List ℕ
  pub rp_name : List ℕ
  pub cb_user_id : ℕ
  pub user_id : List ℕ
  pub user_name : List ℕ
  pub user_display_name : List ℕ

-- WebauthnPluginAddAuthenticatorOptions
pub record AddAuthenticatorOptions : Type 0 where
  pub authenticator_name : List ℕ
  pub clsid : Guid
  pub plugin_rp_id : List ℕ
  pub light_theme_logo_svg : List ℕ
  pub dark_theme_logo_svg : List ℕ
  pub cb_authenticator_info : ℕ
  pub authenticator_info : List ℕ
  pub c_supported_rp_ids : ℕ

-- One call of the process to the outside, with what came back where the program depends on it.
pub data Event : Type 0 where
  -- the plugin pipe: a session's pipe was opened as a handle, or refused; a handle was dropped
  pipe_opened : ℕ → ℕ → Event
  pipe_refused : ℕ → Event
  pipe_closed : ℕ → Event
  slept : ℕ → Event
  wrote : ℕ → Text → Event
  flushed : ℕ → Event
  line_read : ℕ → Event
  -- the registry and webauthn.dll
  nonce_read : Event
  registry_key_opened registry_key_closed : Event
  library_loaded : String → Event
  symbol_resolved : String → Event
  -- user verification by the v1 or the v2 entrypoint, with its HRESULT and buffer
  uv1_called : UserVerificationRequest → ℕ → OutBuffer → Event
  uv2_called : UserVerificationRequest2 → ℕ → OutBuffer → Event
  uv_freed : ℕ → Event
  -- the operation-signing key
  key_called : ℕ → ℕ → Event
  key_freed : ℕ → Event
  -- the credential database of the system
  credentials_added : CredentialDetails → Event
  credentials_listed : ℕ → ℕ → Event
  credential_removed : ℕ → ℕ → Event
  details_freed : ℕ → ℕ → Event
  -- registration of the authenticator
  com_initialized : Event
  com_uninitialized : Event
  authenticator_added : ℕ → ℕ → Event
  authenticator_removed : Event
  add_response_freed : ℕ → Event
  -- the life of the server process, and its class at COM with a cookie
  class_registered class_resumed : Event
  class_revoked : ℕ → Event
  server_add_ref : Event
  server_release : Event
  memory_allocated : ℕ → Event
