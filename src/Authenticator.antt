-- ===== src/Authenticator.antt =====
-- The methods of the `IPluginAuthenticator` object of src/KeePassKeyWin.Provider/src/com/server.rs.
-- A method gets the index of the object's `Arc`; what it writes through an out-pointer is part of its
-- result. Log lines are left out.
pub mod ErrorCodes
pub mod Verified
pub mod Carried
pub mod Delivery
pub mod Publication
pub mod LockStatus
pub mod Aside
use kee_pass_key_win.Prelude.{
  ℕ, ◌%◌, ◌^◌, Bool, true, false, not, ◌&&◌, Option, none, some, List, [], ◌∷◌, ◌++◌, String, Text,
  codes, Result, ok, err, length, ltb, ◌==◌, if◌then◌else◌,
}
use kee_pass_key_win.World.{
  Guid, OutBuffer, Externals, BufferReply, UvTier, Process, memory_allocated, emit,
}
use kee_pass_key_win.Hresult.{
  is_err, s_ok, e_abort, e_fail, e_accessdenied, e_outofmemory, e_invalidarg, e_credential_excluded,
  nte_not_found,
}
use kee_pass_key_win.Guid.{transaction_text}
use kee_pass_key_win.Utf16.{encode_utf16}
use kee_pass_key_win.Ipc.ClientError.{
  ClientError, vault_locked, no_credentials, unsupported_algorithm, credential_excluded,
  invalid_option,
}
use kee_pass_key_win.UserVerification.{
  ipc_str, perform_user_verification_2, free_user_verification_response,
}
use kee_pass_key_win.AddCredentials.{try_add_credentials}
use kee_pass_key_win.Retry.{take_call_with_retry}

-- WebauthNPluginOperationRequest of com/types.rs; `request_type` has one value and is left out.
pub record OperationRequest : Type 0 where
  pub hwnd : ℕ
  pub transaction_id : Guid
  pub cb_request_signature : ℕ
  pub pb_request_signature : ℕ
  pub cb_encoded_request : ℕ
  pub pb_encoded_request : ℕ

-- WebauthNPluginOperationResponse, as written, with what was copied behind its pointer.
pub record OperationResponse : Type 0 where
  pub cb_encoded_response : ℕ
  pub pb_encoded_response : ℕ
  pub copied : List ℕ

pub data PluginLockStatus : Type 0 where
  locked unlocked : PluginLockStatus

-- An HRESULT, and what was written through the out-pointer, if anything was.
abbrev pub Answer : Type 0 → Type 0
Answer A = ℕ × Option A

abbrev pub make_credential_raw : String
make_credential_raw = "keepasskeywin.makeCredentialRaw"

abbrev pub get_assertion_raw : String
get_assertion_raw = "keepasskeywin.getAssertionRaw"

-- The error arms of `dispatch_operation`.
unfoldable pub hresult_of : ClientError → ℕ
hresult_of vault_locked = e_accessdenied
hresult_of unsupported_algorithm = e_invalidarg
hresult_of credential_excluded = e_credential_excluded
hresult_of invalid_option = e_invalidarg
hresult_of no_credentials = nte_not_found
hresult_of _ = e_fail

-- `decode(..).unwrap_or_default()`
abbrev pub or_empty : Option (List ℕ) → List ℕ
or_empty none = []
or_empty (some b) = b

abbrev or_true : Option Bool → Bool
or_true none = true
or_true (some b) = b

module _ {V : Type 0} (x : Externals V) where
  unfoldable pub extract_prompt_hint : List ℕ → Text
  extract_prompt_hint cbor = elim (x.make_credential_user_name cbor) [
    | some name ↦ name
    | none ↦ codes "KeePassKeyWin"
  ]

  -- `slice::from_raw_parts(ptr, cb)` where there is something, and no bytes otherwise.
  abbrev pub bytes_at : Process → ℕ → ℕ → List ℕ
  bytes_at p ptr cb = if ltb 0 cb && not (ptr == 0) then x.read_memory p.history ptr cb else []

  -- The parameters of the RPC.
  unfoldable pub rpc_params : List ℕ → List ℕ → List ℕ → UvTier → V
  unfolding ipc_str
  rpc_params cbor sig uv_sig tier = x.object (
      ("cbor", x.string (x.b64_encode cbor))
      ∷ ("uv", x.boolean true)
      ∷ ("pbRequestSignatureB64", x.string (x.b64_encode sig))
      ∷ ("uvSignatureB64", x.string (x.b64_encode uv_sig))
      ∷ ("uvBindingTier", x.string (ipc_str tier))
      ∷ [])

  -- The copy of the response into memory of the caller's allocator.
  unfoldable pub hand_out : List ℕ → Process → Answer OperationResponse × Process
  hand_out bytes p =
      let buf = x.co_task_mem_alloc p.history (length bytes) in
      let p' = emit (memory_allocated (length bytes)) p in
      if buf == 0 then ((e_outofmemory, none), p') else (
        (
          s_ok,
          some (record {
            cb_encoded_response = length bytes % 2 ^ 32;
            pb_encoded_response = buf;
            copied = bytes;
          }),
        ),
        p',
      )

  -- What follows the RPC.
  unfoldable pub conclude :
      String → Option (Result ClientError V) × Process → Answer OperationResponse × Process
  unfolding hand_out
  conclude method (none, p) = ((e_fail, none), p)
  conclude method (some (err e), p) = ((hresult_of e, none), p)
  conclude method (some (ok v), p) = elim (x.as_str (x.index v "cbor")) [
    | none ↦ ((e_fail, none), p)
    | some resp_b64 ↦ hand_out (or_empty (x.b64_decode resp_b64)) (try_add_credentials x method v p)
  ]

  -- What follows user verification: its buffer is copied and freed, an error is passed on, and a
  -- success goes to the plugin.
  unfoldable pub forward :
      ℕ
      → String
      → List ℕ
      → List ℕ
      → BufferReply
      → UvTier
      → Process
      → Answer OperationResponse × Process
  unfolding free_user_verification_response conclude
  forward arc method cbor sig uv tier p =
      let uv_sig = bytes_at p uv.out.ptr uv.out.cb in
      let p' = free_user_verification_response x uv.out.ptr p in
      if uv.hr == e_abort
      then ((uv.hr, none), p')
      else if is_err uv.hr
      then ((uv.hr, none), p')
      else conclude method (take_call_with_retry x method (rpc_params cbor sig uv_sig tier) arc p')

  -- The request signature, as it is handed to the plugin.
  unfoldable pub request_signature : OperationRequest → Process → List ℕ
  request_signature req p = bytes_at p req.pb_request_signature req.cb_request_signature

  unfoldable pub encoded_request : OperationRequest → Process → List ℕ
  encoded_request req p = x.read_memory p.history req.pb_encoded_request req.cb_encoded_request

  -- The prompt that is shown for a request.
  unfoldable pub prompt :
      OperationRequest → List ℕ → Process → Result Text (BufferReply × UvTier) × Process
  unfolding extract_prompt_hint
  prompt req cbor p =
      perform_user_verification_2 x req.hwnd req.transaction_id
        (encode_utf16 (extract_prompt_hint cbor) ++ 0 ∷ [])
        (encode_utf16 (codes "KeePassKeyWin" ++ 0 ∷ [])) (x.sha256 cbor)
        (record { cb = 0; ptr = 0 }) p

  -- From the prompt on.
  unfoldable pub after_prompt :
      ℕ
      → String
      → List ℕ
      → List ℕ
      → Result Text (BufferReply × UvTier) × Process
      → Answer OperationResponse × Process
  unfolding forward
  after_prompt arc method cbor sig (err e, p) = ((e_fail, none), p)
  after_prompt arc method cbor sig (ok (uv, tier), p) = forward arc method cbor sig uv tier p

  unfoldable pub dispatch_operation :
      ℕ → OperationRequest → String → Process → Answer OperationResponse × Process
  unfolding encoded_request request_signature prompt after_prompt
  dispatch_operation arc req method p =
      let cbor = encoded_request req p in
      after_prompt arc method cbor (request_signature req p) (prompt req cbor p)

  unfoldable pub make_credential :
      ℕ → OperationRequest → Process → Answer OperationResponse × Process
  unfolding dispatch_operation
  make_credential arc req p = dispatch_operation arc req make_credential_raw p

  unfoldable pub get_assertion : ℕ → OperationRequest → Process → Answer OperationResponse × Process
  unfolding dispatch_operation
  get_assertion arc req p = dispatch_operation arc req get_assertion_raw p

  -- The result of the call is dropped.
  unfoldable pub cancel_operation : ℕ → Guid → Process → ℕ × Process
  cancel_operation arc transaction_id p =
      let params = x.object (("transactionId", x.string (transaction_text transaction_id)) ∷ []) in
      (s_ok, (take_call_with_retry x "keepasskeywin.cancelOperation" params arc p).1)

  -- The answer to the result of the RPC.
  unfoldable pub lock_answer : Option (Result ClientError V) → Answer PluginLockStatus
  lock_answer none = (s_ok, some locked)
  lock_answer (some (ok v)) =
      (s_ok, some (if or_true (x.as_bool (x.index v "locked")) then locked else unlocked))
  lock_answer (some (err vault_locked)) = (s_ok, some locked)
  lock_answer (some (err _)) = (e_fail, none)

  unfoldable pub get_lock_status : ℕ → Process → Answer PluginLockStatus × Process
  unfolding lock_answer
  get_lock_status arc p =
      let (r, p') = take_call_with_retry x "keepasskeywin.getLockStatus" (x.object []) arc p in
      (lock_answer r, p')
