-- ===== src/Examples/Sample.antt =====
-- A small plugin, system and vault, as functions.
use kee_pass_key_win.Prelude.{
  ℕ, Bool, false, Option, none, some, List, [], ◌∷◌, String, Text, codes, ok, err, ◌++◌, ◌==◌,
  if◌then◌else◌,
}
use kee_pass_key_win.World.{
  broken_pipe, other_kind, Guid, v2_stable, Externals, WebauthnBindings, CredentialBindings,
  PipeClient, Process,
}
use kee_pass_key_win.Hresult.{e_abort, e_notimpl}
use kee_pass_key_win.Authenticator.{OperationRequest}

-- The values that the sample plugin sends.
pub data Value : Type 0 where
  nothing vault fields : Value
  flag : Bool → Value
  word : Text → Value
  item : ℕ → Value

abbrev index : Value → String → Value
index (item n) key = word (n ∷ [])
index fields key = word (codes "a")
index (flag b) key = flag b
index _ key = nothing

abbrev as_str : Value → Option Text
as_str (word t) = some t
as_str _ = none

abbrev as_bool : Value → Option Bool
as_bool (flag b) = some b
as_bool _ = none

abbrev as_array : Value → Option (List Value)
as_array vault = some (item 1 ∷ item 2 ∷ [])
as_array _ = none

-- Pipe 3 is broken, every other one works and answers `false`; v2 behind pointer 1 is not
-- implemented and yet hands out a buffer; v1 is cancelled; the system's list holds 2 and 9.
abbrev pub sample : Externals Value
sample = record {
  object = λ kvs. fields;
  string = word;
  boolean = flag;
  null = nothing;
  index = index;
  as_str = as_str;
  as_bool = as_bool;
  as_array = as_array;
  request_to_string = λ r. ok (codes "request");
  hello_to_string = λ r. ok (codes "hello");
  response_from_str = λ t. ok (record { id = nothing; result = some (flag false); error = none });
  value_from_value = λ v. ok v;
  b64_encode = λ bs. bs;
  b64_decode = λ t. some t;
  b64_url_decode = λ t. some t;
  sha256 = λ bs. bs;
  make_credential_user_name = λ bs. none;
  into_writer = λ v. 1 ∷ [];
  open_pipe = λ h s. ok 7;
  write_all = λ h p t. if p == 3 then err (record { kind = broken_pipe; message = [] }) else ok tt;
  flush = λ h p. ok tt;
  read_line = λ h p. ok (codes "a" ++ 10 ∷ []);
  env_var = λ s. none;
  reg_get_value = λ h. record { status = 0; value_type = 1; cb = 6; buf = 65 ∷ 66 ∷ 0 ∷ 0 ∷ [] };
  load_library = λ h s. ok 1;
  get_proc_address = λ h m s. some 1;
  read_memory = λ h a n. if a == 8 then 9 ∷ [] else 2 ∷ [];
  co_initialize = λ h. 0;
  co_task_mem_alloc = λ h n. 64;
  call_perform_uv = λ h f r o. record { hr = e_abort; out = record { cb = 0; ptr = 0 } };
  call_perform_uv2 = λ h f r o. record { hr = e_notimpl; out = record { cb = 4; ptr = 5 } };
  call_get_key_refclsid = λ h f. record { hr = 0; out = record { cb = 4; ptr = 6 } };
  call_get_key_pwstr = λ h f s. record { hr = 0; out = record { cb = 4; ptr = 6 } };
  call_add_credentials = λ h f d. 0;
  call_get_all_credentials = λ h f. record { hr = 0; out = record { cb = 2; ptr = 9 } };
  credential_detail = λ h a i. record { cb = 1; ptr = if i == 0 then 4 else 8 };
  call_remove_credentials = λ h f a i. 0;
  call_add_authenticator = λ h f o. record { hr = 0x8009000f; out = record { cb = 0; ptr = 5 } };
  call_remove_authenticator = λ h f. 0x80070490;
}

-- The same with no plugin to connect to.
abbrev pub refusing : Externals Value
refusing = record sample { open_pipe = λ h s. err (record { kind = other_kind 2; message = [] }) }

-- The same with a user who approves by v2, and a plugin whose reply has a string in every field.
abbrev pub approving : Externals Value
approving = record sample {
  call_perform_uv2 = λ h f r o. record { hr = 0; out = record { cb = 4; ptr = 5 } };
  response_from_str = λ t. ok (record { id = nothing; result = some fields; error = none });
}

abbrev pub entrypoints : WebauthnBindings
entrypoints = record {
  add = 1;
  remove = 1;
  free_response = 1;
  perform_uv = 1;
  perform_uv_v2 = some 1;
  perform_uv_tier = v2_stable;
  free_uv_response = 1;
  v2_unimplemented = false;
  add_symbol_name = "WebAuthNPluginAddAuthenticator";
  perform_uv_symbol_name = "WebAuthNPluginPerformUserVerification2";
}

abbrev pub database : CredentialBindings
database = record {
  add_credentials = 1;
  get_all_credentials = some 1;
  remove_credentials = some 1;
  free_credential_details_array = some 1;
}

-- A process with everything resolved and one state, with a pipe of the given handle.
abbrev pub with_pipe : ℕ → Process
with_pipe handle = record {
  history = [];
  bindings = some (ok entrypoints);
  credential_bindings = some (ok database);
  op_sign_key = some (ok (1 ∷ []));
  arcs = record { session_id = 1; pipe = some (record { transport = handle; next_id = 1 }) } ∷ [];
  shared_state = some 0;
}

abbrev pub client : ℕ → PipeClient
client handle = record { transport = handle; next_id = 1 }

abbrev pub guid : Guid
guid = record { data1 = 1; data2 = 2; data3 = 3; data4 = 0 ∷ 0 ∷ 0 ∷ 0 ∷ 0 ∷ 0 ∷ 0 ∷ 1 ∷ [] }

abbrev pub a_request : OperationRequest
a_request = record {
  hwnd = 1;
  transaction_id = guid;
  cb_request_signature = 4;
  pb_request_signature = 5;
  cb_encoded_request = 4;
  pb_encoded_request = 6;
}
