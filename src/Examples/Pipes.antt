-- ===== src/Examples/Pipes.antt =====
-- Runs on the pipe: activation, calls on a live, a stale and a lost pipe, and the calls below them.
use kee_pass_key_win.Prelude.{ℕ, some, ◌≡◌, refl}
use kee_pass_key_win.World.{Process, fresh_process}
use kee_pass_key_win.Guid.{iid_iunknown}
use kee_pass_key_win.Ipc.Client.{call, call_value, connect, delays_ms, read_response}
use kee_pass_key_win.Ipc.Connecting.{Connected, connect_bounds}
use kee_pass_key_win.Connection.{connect_and_handshake, hello}
use kee_pass_key_win.Registry.{read_reply}
use kee_pass_key_win.Utf16.{from_utf16}
use kee_pass_key_win.OpSignKey.{
  get_signing_key_bytes, fetch_key_from_dll, resolve_get_key, probe_free_key, load_key_bindings,
  call_get_key, free_key_buffer, get_op_sign_pub_key_bytes_for_hello,
}
use kee_pass_key_win.Retry.{take_call_with_retry}
use kee_pass_key_win.Retry.Replies.{IsBounded, take_call_with_retry-IsBounded}
use kee_pass_key_win.ComObject.{
  choose_state, allocate_state, hand_over, ClassFactory, cf_create_instance,
}
use kee_pass_key_win.Authenticator.{get_lock_status}
use kee_pass_key_win.Prelude.{◌≢◌, arith}
use kee_pass_key_win.Hresult.{s_ok}
use kee_pass_key_win.Authenticator.{
  cancel_operation, dispatch_operation, locked, make_credential_raw,
}
use kee_pass_key_win.Server.Lost.{Fruitless}
use kee_pass_key_win.Flight as Flight
use kee_pass_key_win.Flight.Refinement.{idle}
use kee_pass_key_win.Flight.Lost.{Moves-lost}
use kee_pass_key_win.Server.{activate, asked, Run, start, next}
use kee_pass_key_win.Server.Runs.{Run-one_holder}
use kee_pass_key_win.Dll.{load_webauthn, try_get_proc}
use kee_pass_key_win.Ipc.Client.{send_line, recv_line, connect_from, try_connect, handshake}
use kee_pass_key_win.Prelude.{eq_text}
use kee_pass_key_win.Examples.Sample.{nothing, sample, refusing, with_pipe, guid, a_request}

abbrev pub factory : ClassFactory
factory = record { ref_count = 1; session_id = 1 }

-- An activation, and a question for the lock status.
abbrev activated : Process
activated = (cf_create_instance sample factory iid_iunknown fresh_process).1

abbrev served : Process
served = (get_lock_status sample 0 activated).1

abbrev a_run : Run sample fresh_process served
a_run =
    next activated served (next fresh_process activated start (activate factory iid_iunknown))
      (asked 0)

retry_example :
    IsBounded 0 (with_pipe 3) (take_call_with_retry sample "m" nothing 0 (with_pipe 3)).1
retry_example = take_call_with_retry-IsBounded sample "m" nothing 0 (with_pipe 3)

connect_example : Connected delays_ms fresh_process (connect refusing 1 fresh_process)
connect_example = connect_bounds refusing 1 fresh_process

abbrev the_state : ℕ
the_state = 0

one_holder_example : the_state ≡ the_state
unfolding get_lock_status take_call_with_retry cf_create_instance call_value call send_line
    recv_line read_response connect_and_handshake connect connect_from try_connect read_reply
    from_utf16 hello handshake get_op_sign_pub_key_bytes_for_hello get_signing_key_bytes
    fetch_key_from_dll resolve_get_key load_webauthn try_get_proc probe_free_key load_key_bindings
    call_get_key free_key_buffer choose_state allocate_state hand_over eq_text
one_holder_example =
    Run-one_holder sample served a_run the_state the_state (record { transport = 7; next_id = 3 })
      (record { transport = 7; next_id = 3 }) refl refl

-- The state after a reconnection that failed, and the lock status asked for again.
abbrev lost : Process
lost = (get_lock_status refusing 0 (with_pipe 3)).1

-- An activation meanwhile, whose connection fails too.
abbrev again : Process
again = (cf_create_instance refusing factory iid_iunknown lost).1

forlorn_example :
    (get_lock_status refusing 0 again ≡ ((s_ok, some locked), again))
    × (cancel_operation refusing 0 guid again ≡ (s_ok, again))
    × Fruitless again (dispatch_operation refusing 0 a_request make_credential_raw again)
    × ((dispatch_operation refusing 0 a_request make_credential_raw again).0.0 ≢ s_ok)
unfolding get_lock_status take_call_with_retry call_value call send_line recv_line read_response
    connect_and_handshake connect connect_from try_connect
forlorn_example =
    Moves-lost refusing (idle lost) (idle again)
      (Flight.next _ _ Flight.start (Flight.activated factory iid_iunknown)) 0
      (omega arith, refl, tt) a_request make_credential_raw guid
