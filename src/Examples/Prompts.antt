-- ===== src/Examples/Prompts.antt =====
-- Runs of user verification, and of the operations that ask for it.
use kee_pass_key_win.Prelude.{◌+◌, ◌≡◌, refl, none, some, [], ◌∷◌, arith}
use kee_pass_key_win.World.{OutBuffer, UserVerificationRequest, UserVerificationRequest2}
use kee_pass_key_win.World.Aside.{IsAside}
use kee_pass_key_win.Hresult.{e_abort, s_ok}
use kee_pass_key_win.UserVerification.{verify_with, perform_user_verification_2}
use kee_pass_key_win.UserVerification.Tiers.{
  Prompt, Verified, verify_all, refusals, chances, verify_with-Verified, verify_all-refusals,
}
use kee_pass_key_win.World.Counts.{buffers_out, buffers_freed}
use kee_pass_key_win.Authenticator.{
  make_credential_raw, dispatch_operation, prompt, get_lock_status,
}
use kee_pass_key_win.Authenticator.Delivery.{IsDelivery, dispatch_operation-IsDelivery}
use kee_pass_key_win.Authenticator.{OperationResponse, encoded_request, get_assertion_raw}
use kee_pass_key_win.Prelude.{codes}
use kee_pass_key_win.Examples.Sample.{approving}
use kee_pass_key_win.Authenticator.Verified.{
  Written, dispatch_operation-Refused, dispatch_operation-Written,
}
use kee_pass_key_win.Authenticator.LockStatus.{SaysOpen, get_lock_status-unlocked}
use kee_pass_key_win.Retry.{take_call_with_retry}
use kee_pass_key_win.Ipc.Client.{call, call_value, send_line, recv_line, read_response}
use kee_pass_key_win.Examples.Sample.{sample, fields, entrypoints, with_pipe, guid, a_request}
use kee_pass_key_win.Guid.{iid_iunknown}
use kee_pass_key_win.World.{Process, fresh_process}
use kee_pass_key_win.ComObject.{cf_create_instance}
use kee_pass_key_win.Authenticator.{get_assertion}
use kee_pass_key_win.Server.{activate, asserted, start, next}
use kee_pass_key_win.Server.Settled.{Run-freed}
use kee_pass_key_win.Examples.Pipes.{factory}
use kee_pass_key_win.Prelude.{◌⊎◌}
use kee_pass_key_win.AddCredentials.Publishing.{Untold}
use kee_pass_key_win.Authenticator.Publication.{IsPublication, dispatch_operation-Told}

abbrev request1 : UserVerificationRequest
request1 = record { hwnd = 1; transaction_id = guid; username = []; display_hint = [] }

abbrev request2 : UserVerificationRequest2
request2 = record {
  hwnd = 1;
  transaction_id = guid;
  username = [];
  display_hint = [];
  cb_buffer_to_sign = 0;
  buffer_to_sign = [];
}

abbrev empty : OutBuffer
empty = record { cb = 0; ptr = 0 }

abbrev a_prompt : Prompt
a_prompt = record {
  hwnd = 1;
  transaction_id = guid;
  username = [];
  display_hint = [];
  buffer_to_sign = [];
  out = empty;
}

tier_example :
    Verified (with_pipe 5) (verify_with sample entrypoints request1 request2 empty (with_pipe 5))
tier_example =
    verify_with-Verified sample entrypoints request1 request2 empty (with_pipe 5) (ground arith)
      refl

refusals_example :
    let q = verify_all sample (a_prompt ∷ a_prompt ∷ []) (with_pipe 5) in
    refusals q.history + chances q.bindings ≡ 1
refusals_example =
    verify_all-refusals sample (a_prompt ∷ a_prompt ∷ []) (with_pipe 5) (ground arith)

refused_example :
    let (answer, q) = dispatch_operation sample 0 a_request make_credential_raw (with_pipe 5) in
    (answer ≡ (e_abort, none)) × IsAside (with_pipe 5) q
unfolding prompt perform_user_verification_2
refused_example =
    dispatch_operation-Refused sample 0 a_request make_credential_raw (with_pipe 5) refl

dispatch_example :
    Written approving (dispatch_operation approving 0 a_request get_assertion_raw (with_pipe 5))
dispatch_example = dispatch_operation-Written approving 0 a_request get_assertion_raw (with_pipe 5)

-- The same has a response.
dispatch_response : (dispatch_operation approving 0 a_request get_assertion_raw (with_pipe 5)).0 ≡ (
  s_ok,
  some (record { cb_encoded_response = 1; pb_encoded_response = 64; copied = codes "a" }),
)
unfolding dispatch_operation perform_user_verification_2 take_call_with_retry call_value call
    send_line recv_line read_response
dispatch_response = refl

unlocked_example :
    SaysOpen sample
      (take_call_with_retry sample "keepasskeywin.getLockStatus" fields 0 (with_pipe 5)).0
unfolding get_lock_status take_call_with_retry call_value call send_line recv_line read_response
unlocked_example = get_lock_status-unlocked sample 0 s_ok (with_pipe 5) refl

-- What the plugin replied, in memory of the caller's.
abbrev a_response : OperationResponse
a_response = record { cb_encoded_response = 1; pb_encoded_response = 64; copied = codes "a" }

response_example :
    let cbor = encoded_request approving a_request (with_pipe 5) in
    IsDelivery approving 0 0 a_request get_assertion_raw
      (with_pipe 5)
      (prompt approving a_request cbor (with_pipe 5))
      a_response
unfolding encoded_request dispatch_operation perform_user_verification_2 take_call_with_retry
    call_value call send_line recv_line read_response
response_example =
    dispatch_operation-IsDelivery approving 0 a_request get_assertion_raw (with_pipe 5) a_response
      refl

-- An activation, and then an operation that is approved.
abbrev activated : Process
activated = (cf_create_instance approving factory iid_iunknown fresh_process).1

abbrev operated : Process
operated = (get_assertion approving 0 a_request activated).1

Run-freed_example : buffers_out operated.history ≡ buffers_freed operated.history
Run-freed_example = Run-freed approving operated (
    next activated operated (next fresh_process activated start (activate factory iid_iunknown))
      (asserted 0 a_request))

told_example :
    let cbor = encoded_request approving a_request activated in
    let q = (dispatch_operation approving 0 a_request make_credential_raw activated).1 in
    Untold activated q
    ⊎ IsPublication approving 0 a_request make_credential_raw
        (prompt approving a_request cbor activated)
        activated
        q
unfolding encoded_request
told_example = dispatch_operation-Told approving 0 a_request make_credential_raw activated
