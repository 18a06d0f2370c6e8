-- ===== src/Examples/Threads.antt =====
-- Runs of the threads: a call in flight beside an activation, and the wait for a future.
use kee_pass_key_win.Prelude.{◌≤◌, true, none, [], ◌∷◌, ◌≡◌, refl, length}
use kee_pass_key_win.Prelude.{eq_text}
use kee_pass_key_win.World.{PipeClient, Process, fresh_process, set_pipe}
use kee_pass_key_win.World.Counts.{OnePipe}
use kee_pass_key_win.Guid.{iid_iunknown}
use kee_pass_key_win.Ipc.Client.{
  call, call_value, connect, connect_from, handshake, read_response, recv_line, send_line,
  try_connect,
}
use kee_pass_key_win.Registry.{read_reply}
use kee_pass_key_win.Utf16.{from_utf16}
use kee_pass_key_win.Connection.{connect_and_handshake, hello}
use kee_pass_key_win.OpSignKey.{
  get_signing_key_bytes, fetch_key_from_dll, resolve_get_key, probe_free_key, load_key_bindings,
  call_get_key, free_key_buffer, get_op_sign_pub_key_bytes_for_hello,
}
use kee_pass_key_win.Dll.{load_webauthn, try_get_proc}
use kee_pass_key_win.Retry.{take_call_with_retry}
use kee_pass_key_win.ComObject.{
  ClassFactory, cf_create_instance, choose_state, allocate_state, hand_over,
}
use kee_pass_key_win.Hresult.{s_ok}
use kee_pass_key_win.Prelude.{String}
use kee_pass_key_win.World.{Guid}
use kee_pass_key_win.Authenticator.{cancel_operation}
use kee_pass_key_win.Flight.{Flight, System, Moves, activated, next, start, take_off, taken}
use kee_pass_key_win.World.Transcript.{transcript}
use kee_pass_key_win.Protocol.{Conforms}
use kee_pass_key_win.Protocol.Moves.{Moves-Conforms}
use kee_pass_key_win.Flight.Exclusion.{fresh_system, Moves-exclusion, Moves-busy}
use kee_pass_key_win.Flight.Landing.{OwnMoves, Moves-landing}
use kee_pass_key_win.Examples.Sample.{Value, nothing, sample, with_pipe, client}

abbrev factory : ClassFactory
factory = record { ref_count = 1; session_id = 1 }

abbrev connected : Process
connected = (cf_create_instance sample factory iid_iunknown fresh_process).1

-- The plugin's pipe as the activation leaves it.
abbrev pub pipe : PipeClient
pipe = record { transport = 7; next_id = 2 }

abbrev question : Flight Value
question = take_off 0 true "m" nothing pipe connected

-- An activation, and then a call that has taken the pipe.
abbrev in_flight : System Value
in_flight = record { process = set_pipe 0 none connected; flights = question ∷ [] }

abbrev a_run : Moves sample fresh_system in_flight
unfolding cf_create_instance call_value call send_line recv_line read_response connect_and_handshake
    connect connect_from try_connect read_reply from_utf16 hello handshake
    get_op_sign_pub_key_bytes_for_hello get_signing_key_bytes fetch_key_from_dll resolve_get_key
    load_webauthn try_get_proc probe_free_key load_key_bindings call_get_key free_key_buffer
    choose_state allocate_state hand_over eq_text
a_run =
    next (record { process = connected; flights = [] }) in_flight
      (next fresh_system (record { process = connected; flights = [] }) start
        (activated factory iid_iunknown))
      (taken 0 true "m" nothing pipe refl)

exclusion_example : (length in_flight.flights ≤ 1) × OnePipe in_flight.process.history
exclusion_example = Moves-exclusion sample in_flight a_run

-- The greeting that `a_run` sends is among what was said.
conforms_example : Conforms sample (transcript in_flight.process.history)
conforms_example = Moves-Conforms sample in_flight a_run

busy_example :
    ((method : String) (params : Value)
      → take_call_with_retry sample method params 0 in_flight.process ≡ (none, in_flight.process))
    × ((transaction_id : Guid)
        → cancel_operation sample 0 transaction_id in_flight.process ≡ (s_ok, in_flight.process))
unfolding take_off
busy_example = Moves-busy sample in_flight a_run question [] refl 0

-- A call on a broken pipe.
abbrev on_broken : Flight Value
on_broken = take_off 0 true "m" nothing (client 3) (with_pipe 3)

landing_example :
    (q : Process) × OwnMoves sample
      (record { process = set_pipe 0 none (with_pipe 3); flights = on_broken ∷ [] })
      (record { process = q; flights = [] })
landing_example = Moves-landing sample (set_pipe 0 none (with_pipe 3)) on_broken []
