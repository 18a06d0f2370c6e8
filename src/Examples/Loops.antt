-- ===== src/Examples/Loops.antt =====
-- A run of the server to its exit, with a call in flight when it is told to quit.
use kee_pass_key_win.Prelude.{true, none, [], ◌∷◌, refl, arith}
use kee_pass_key_win.Prelude.{eq_text}
use kee_pass_key_win.World.{fresh_process, set_pipe}
use kee_pass_key_win.Guid.{iid_iunknown}
use kee_pass_key_win.Ipc.Client.{
  call, connect, connect_from, handshake, read_response, recv_line, send_line, try_connect,
}
use kee_pass_key_win.Registry.{read_reply}
use kee_pass_key_win.Utf16.{from_utf16}
use kee_pass_key_win.Connection.{connect_and_handshake, hello}
use kee_pass_key_win.OpSignKey.{
  get_signing_key_bytes, fetch_key_from_dll, resolve_get_key, probe_free_key, load_key_bindings,
  call_get_key, free_key_buffer, get_op_sign_pub_key_bytes_for_hello,
}
use kee_pass_key_win.Dll.{load_webauthn, try_get_proc}
use kee_pass_key_win.ComObject.{cf_create_instance, choose_state, allocate_state, hand_over}
use kee_pass_key_win.Flight.{activated, next, start, taken}
use kee_pass_key_win.Examples.Sample.{Value, nothing, sample}
use kee_pass_key_win.Prelude.{List, pos, ok, some}
use kee_pass_key_win.ComServer.{Message, ServerExternals, run_com_server, start_server}
use kee_pass_key_win.ComServer.Shutdown.{Ended}
use kee_pass_key_win.ComServer.Threads.{IsProper, run_com_server-IsProper}
use kee_pass_key_win.Examples.Threads.{pipe}
use kee_pass_key_win.Examples.Pipes.{factory}

abbrev server : ServerExternals Value
server = record {
  base = sample;
  build_runtime = ok tt;
  session = some 1;
  register = λ h. ok 9;
  resume = λ h. ok tt;
  register_refs = λ h. 1;
  revoke_refs = λ c h. 1;
}

-- A message on which an object is made, one during which a call takes off, and then WM_QUIT.
abbrev messages : List Message
messages =
    record {
      result = pos 1;
      dispatch = λ f p. (f, (cf_create_instance sample factory iid_iunknown p).1);
    }
    ∷ record { result = pos 1; dispatch = λ f p. (f, set_pipe 0 none p) }
    ∷ record { result = pos 0; dispatch = λ f p. (f, p) }
    ∷ []

served_example :
    let (served, q) = run_com_server server messages fresh_process in
    Ended server fresh_process (served, q) × IsProper sample q
unfolding start_server cf_create_instance call send_line recv_line read_response
    connect_and_handshake connect connect_from try_connect read_reply from_utf16 hello handshake
    get_op_sign_pub_key_bytes_for_hello get_signing_key_bytes fetch_key_from_dll resolve_get_key
    load_webauthn try_get_proc probe_free_key load_key_bindings call_get_key free_key_buffer
    choose_state allocate_state hand_over eq_text
served_example =
    run_com_server-IsProper server messages (omega arith, λ c h. refl)
      (
        refl,
        (
          [],
          next _ _ start (activated factory iid_iunknown),
          (refl, (_, next _ _ start (taken 0 true "m" nothing pipe refl), tt)),
        ),
      )
