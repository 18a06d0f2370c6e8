-- ===== src/World/State.antt =====
-- The state of the provider's process: the calls made, the caches that are filled once, and the
-- objects behind `Arc`.
use kee_pass_key_win.Prelude.{
  ℕ, Bool, Option, none, some, List, [], ◌∷◌, String, Text, Result, get_elem?, set,
}
use kee_pass_key_win.World.Events.{Event}
use kee_pass_key_win.World.Outside.{History}

-- PipeClient of ipc/mod.rs; the transport is the handle of the pipe.
pub record PipeClient : Type 0 where
  pub transport : ℕ
  pub next_id : ℕ

-- KeePassKeyWinAuthenticatorState of com/server.rs
pub record AuthenticatorState : Type 0 where
  pub session_id : ℕ
  pub pipe : Option PipeClient

-- UvTier of com/webauthn_ext.rs
pub data UvTier : Type 0 where
  v2_stable v2_experimental v1 : UvTier

-- WebauthnBindings of com/webauthn_ext.rs; a function pointer is the number that was resolved.
pub record WebauthnBindings : Type 0 where
  pub add : ℕ
  pub remove : ℕ
  pub free_response : ℕ
  pub perform_uv : ℕ
  pub perform_uv_v2 : Option ℕ
  pub perform_uv_tier : UvTier
  pub free_uv_response : ℕ
  pub v2_unimplemented : Bool
  pub add_symbol_name : String
  pub perform_uv_symbol_name : String

-- Bindings of com/webauthnplugin_ext.rs
pub record CredentialBindings : Type 0 where
  pub add_credentials : ℕ
  pub get_all_credentials : Option ℕ
  pub remove_credentials : Option ℕ
  pub free_credential_details_array : Option ℕ

pub record Process : Type 0 where
  -- every call made so far, newest first
  pub history : History
  -- the `OnceLock`s: BINDINGS twice, and OP_SIGN_KEY_CACHE
  pub bindings : Option (Result Text WebauthnBindings)
  pub credential_bindings : Option (Result Text CredentialBindings)
  pub op_sign_key : Option (Result ℕ (List ℕ))
  -- the allocations behind `Arc<Mutex<KeePassKeyWinAuthenticatorState>>`, and SHARED_STATE
  pub arcs : List AuthenticatorState
  pub shared_state : Option ℕ

abbrev pub emit : Event → Process → Process
emit e p = record p { history = e ∷ p.history }

-- `state.lock().unwrap()` of an `Arc`, read and written.
abbrev pub pipe_of : Option AuthenticatorState → Option PipeClient
pipe_of none = none
pipe_of (some s) = s.pipe

abbrev pub session_of : Option AuthenticatorState → ℕ
session_of none = 0
session_of (some s) = s.session_id

abbrev pub set_pipe : ℕ → Option PipeClient → Process → Process
set_pipe arc c p = record p {
  arcs = set p.arcs arc (record { session_id = session_of (get_elem? p.arcs arc); pipe = c });
}

abbrev pub fresh_process : Process
fresh_process = record {
  history = [];
  bindings = none;
  credential_bindings = none;
  op_sign_key = none;
  arcs = [];
  shared_state = none;
}
