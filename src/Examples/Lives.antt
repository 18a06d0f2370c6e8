-- ===== src/Examples/Lives.antt =====
-- The life of an object that Windows gives back, counted.
use kee_pass_key_win.Prelude.{eq_text}
use kee_pass_key_win.Prelude.{◌+◌, ◌<◌, some, [], ◌∷◌, ◌≡◌, refl}
use kee_pass_key_win.World.{fresh_process}
use kee_pass_key_win.Guid.{iid_iunknown}
use kee_pass_key_win.ComObject.{
  ComObject, add_ref, cf_create_instance, hand_over, new_object, query_interface, release,
}
use kee_pass_key_win.Connection.{connect_and_handshake, hello}
use kee_pass_key_win.Ipc.Client.{
  call, connect, connect_from, handshake, read_response, recv_line, send_line, try_connect,
}
use kee_pass_key_win.Registry.{read_reply}
use kee_pass_key_win.Utf16.{from_utf16}
use kee_pass_key_win.OpSignKey.{get_op_sign_pub_key_bytes_for_hello}
use kee_pass_key_win.World.Counts.{server_add_refs, server_releases}
use kee_pass_key_win.Lifetime.{Calls, Life, after_activation, activated, next, released, start}
use kee_pass_key_win.Prelude.{ℕ, length}
use kee_pass_key_win.Lifetime.Tasks.{Calls-tasks}
use kee_pass_key_win.Lifetime.Counts.{Calls-leak, fresh_life}
use kee_pass_key_win.Examples.Pipes.{factory}
use kee_pass_key_win.Examples.Sample.{sample}

-- An object that was handed out, and then the release of the one reference to it.
abbrev handed_out : Life
handed_out =
    after_activation (cf_create_instance sample factory iid_iunknown fresh_process) fresh_life

abbrev given_back : Life
given_back = record handed_out {
  lent = record { object = some (record { ref_count = 1; state = 0 }); held = 0 } ∷ [];
}

abbrev a_life : Calls sample fresh_life given_back
unfolding hand_over release query_interface new_object add_ref eq_text cf_create_instance
    connect_and_handshake connect connect_from try_connect read_reply from_utf16 hello handshake
    get_op_sign_pub_key_bytes_for_hello call send_line recv_line read_response
a_life =
    next handed_out given_back (next fresh_life handed_out start (activated factory iid_iunknown))
      (released 0 (record { ref_count = 2; state = 0 }) 0 refl)

leak_example :
    ((o : ComObject) × (some (record { ref_count = 1; state = 0 }) ≡ some o)
      × (o.ref_count ≡ 0 + 1))
    × (server_releases given_back.process.history < server_add_refs given_back.process.history)
leak_example =
    Calls-leak sample given_back a_life 0
      (record { object = some (record { ref_count = 1; state = 0 }); held = 0 }) refl

-- The first place among the tasks.
abbrev front : ℕ
front = 0

tasks_example : (front ≡ front) × (0 < length given_back.process.arcs)
unfolding cf_create_instance hand_over eq_text connect_and_handshake connect connect_from
    try_connect read_reply from_utf16 hello handshake get_op_sign_pub_key_bytes_for_hello call
    send_line recv_line read_response
tasks_example = Calls-tasks sample given_back a_life front front 0 refl refl
