-- ===== src/Connection.antt =====
-- `connect_and_handshake` of src/KeePassKeyWin.Provider/src/com/exe_server.rs. A `PipeClient` that
-- goes out of scope closes its pipe; these drops are written out. Log lines are left out.
pub mod Frame
use kee_pass_key_win.Prelude.{ℕ, String, Text, Result, ok, err, Exec}
use kee_pass_key_win.World.{Externals, PipeClient, Process, pipe_closed, emit}
use kee_pass_key_win.Ipc.ClientError.{ClientError, invalid_request}
use kee_pass_key_win.Ipc.Client.{Session, connect, handshake}
use kee_pass_key_win.Ipc.Classify.{clear_slot}
use kee_pass_key_win.Registry.{RegReadError, read_handshake_nonce, reason}
use kee_pass_key_win.OpSignKey.{get_op_sign_pub_key_bytes_for_hello}

abbrev pub pkg_family : String
pkg_family = "KeePassKeyWin.Provider_4fv17arhjxxvg"

-- The drop of a client.
unfoldable pub drop_client : PipeClient → Process → Process
drop_client c p = emit (pipe_closed c.transport) p

module _ {V : Type 0} (x : Externals V) where
  -- The hello call on a fresh client, which is dropped if the call fails.
  unfoldable pub hello : PipeClient → Text → Exec Process ClientError PipeClient
  unfolding drop_client
  hello client nonce p =
      let (pub_key, p1) = get_op_sign_pub_key_bytes_for_hello x p in
      let s : Session = record { client = client; process = p1 } in
      let (r, t) = handshake x pkg_family nonce pub_key s in
      elim r [ ok _ ↦ (ok t.client, t.process) | err e ↦ (err e, drop_client t.client t.process) ]

  -- From the nonce on.
  unfoldable pub with_nonce :
      PipeClient → Result RegReadError Text × Process → Result ClientError PipeClient × Process
  unfolding drop_client
  with_nonce client (err e, p) = (err (invalid_request (reason e)), drop_client client p)
  with_nonce client (ok nonce, p) = hello client nonce p

  -- From the connection on.
  unfoldable pub with_client :
      Result ClientError PipeClient × Process → Result ClientError PipeClient × Process
  unfolding read_handshake_nonce with_nonce
  with_client (err e, p) = (err e, p)
  with_client (ok client, p) = with_nonce client (read_handshake_nonce x p)

  unfoldable pub connect_and_handshake : ℕ → Exec Process ClientError PipeClient
  unfolding with_client
  connect_and_handshake session_id p = with_client (connect x session_id p)

-- Setting SHARED_STATE to `None`; the allocation stays for those who hold it.
unfoldable pub clear_shared_state : Process → Process
unfolding clear_slot
clear_shared_state p = record p { shared_state = clear_slot p.shared_state }
