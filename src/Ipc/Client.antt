-- ===== src/Ipc/Client.antt =====
-- `Transport` and `PipeClient` of src/KeePassKeyWin.Provider/src/ipc/mod.rs, on Windows. A method on
-- `&mut self` takes the client and the process together, as a `Session`. Log lines are left out.
use kee_pass_key_win.Prelude.{
  ℕ, ◌+◌, ◌%◌, ◌^◌, Option, none, some, List, [], ◌∷◌, String, Text, codes, Result, ok, err,
  map_err, Exec, ◌>>=◌, ◌>>◌, lift, ◌==◌, if◌then◌else◌,
}
use kee_pass_key_win.World.{
  IoError, pipe_opened, pipe_refused, slept, wrote, flushed, line_read, Externals, RpcRequest,
  RpcResponse, HelloParams, PipeClient, Process, emit,
}
use kee_pass_key_win.Ipc.ClientError.{ClientError, timeout, io, json, invalid_request, from_rpc}

pub record Session : Type 0 where
  pub client : PipeClient
  pub process : Process

-- `?` on an I/O error
abbrev pub io_call : {A : Type 0} → Exec Session IoError A → Exec Session ClientError A
io_call m s = let (r, s') = m s in (map_err io r, s')

-- The pop of a final newline in `recv_line`.
unfoldable pub pop_newline : Text → Text
pop_newline [] = []
pop_newline (c ∷ []) = if c == 10 then [] else c ∷ []
pop_newline (c ∷ d ∷ rest) = c ∷ pop_newline (d ∷ rest)

-- The delays between the attempts of `connect`.
abbrev pub delays_ms : List ℕ
delays_ms = 50 ∷ 100 ∷ 200 ∷ 400 ∷ 800 ∷ 1600 ∷ 1850 ∷ []

-- `last_err.unwrap_or(ClientError::Timeout)`
abbrev pub unwrap_last : Option ClientError → ClientError
unwrap_last none = timeout
unwrap_last (some e) = e

module _ {V : Type 0} (x : Externals V) where
  write : Text → Exec Session IoError (Unit {0})
  write t s = (
    x.write_all s.process.history s.client.transport t,
    record s { process = emit (wrote s.client.transport t) s.process },
  )

  flush_writer : Exec Session IoError (Unit {0})
  flush_writer s = (
    x.flush s.process.history s.client.transport,
    record s { process = emit (flushed s.client.transport) s.process },
  )

  unfoldable pub send_line : Text → Exec Session IoError (Unit {0})
  unfolding write flush_writer
  send_line line = do write line; write (10 ∷ []); flush_writer

  unfoldable pub recv_line : Exec Session IoError Text
  unfolding pop_newline
  recv_line s =
      let r = x.read_line s.process.history s.client.transport in
      let s' = record s { process = emit (line_read s.client.transport) s.process } in
      elim r [ ok buf ↦ (ok (pop_newline buf), s') | err e ↦ (err e, s') ]

  unfoldable pub try_connect : ℕ → Exec Process ClientError PipeClient
  try_connect session_id p = elim (x.open_pipe p.history session_id) [
    | ok h ↦ (ok (record { transport = h; next_id = 1 }), emit (pipe_opened session_id h) p)
    | err e ↦ (err (io e), emit (pipe_refused session_id) p)
  ]

  -- The loop of `connect` over the delays that are left, and the final attempt.
  unfoldable pub connect_from :
      List ℕ → Option ClientError → ℕ → Exec Process ClientError PipeClient
  connect_from [] last_err session_id p =
      let (r, p') = try_connect session_id p in (map_err (λ _. unwrap_last last_err) r, p')
  connect_from (delay ∷ delays) last_err session_id p =
      let (r, p') = try_connect session_id p in
      elim r [
        | ok c ↦ (ok c, p')
        | err e ↦ connect_from delays (some e) session_id (emit (slept delay) p')
      ]

  unfoldable pub connect : ℕ → Exec Process ClientError PipeClient
  connect = connect_from delays_ms none

  -- `self.next_id` before and after `self.next_id += 1`, which wraps in a release build.
  abbrev pub request : {P : Type 0} → String → P → Session → RpcRequest P
  request method params s = record {
    jsonrpc = "2.0";
    id = s.client.next_id;
    method = method;
    params = params;
  }

  abbrev pub bump_id : Session → Session
  bump_id s = record s { client = record s.client { next_id = (s.client.next_id + 1) % 2 ^ 32 } }

  abbrev pub or_null : Option V → V
  or_null none = x.null
  or_null (some v) = v

  -- The result of a parsed response; its `error` wins over its `result`.
  unfoldable pub read_response :
      {R : Type 0} → (V → Result Text R) → RpcResponse V → Result ClientError R
  read_response de response = elim response.error [
    | some e ↦ err (from_rpc e.code e.message)
    | none ↦ map_err json (de (or_null response.result))
  ]

  -- `call`; `ser` and `de` are `serde_json` at the types of the parameters and of the result.
  unfoldable pub call :
      {P R : Type 0} (ser : RpcRequest P → Result Text Text) (de : V → Result Text R)
      → String
      → P
      → Exec Session ClientError R
  call ser de method params s =
      let steps : Exec Session ClientError _ = do
        line ← lift (map_err json (ser (request method params s)))
        io_call (send_line line)
        resp_line ← io_call recv_line
        response ← lift (map_err json (x.response_from_str resp_line))
        lift (read_response de response)
      in steps (bump_id s)

  -- A call with `serde_json::Value` for both types.
  unfoldable pub call_value : String → V → Exec Session ClientError V
  call_value = call x.request_to_string x.value_from_value

  abbrev pub key_unavailable : Text
  key_unavailable = codes "op-sign public key unavailable — cannot complete handshake without it"

  unfoldable pub handshake : String → Text → Option (List ℕ) → Exec Session ClientError (Unit {0})
  handshake pkg_family nonce none s = (err (invalid_request key_unavailable), s)
  handshake pkg_family nonce (some key_bytes) s =
      let params : HelloParams = record {
        client_pkg_family_name = pkg_family;
        handshake_nonce = nonce;
        op_sign_public_key_b64 = x.b64_encode key_bytes;
      } in
      let (r, s') = call x.hello_to_string x.value_from_value "keepasskeywin.hello" params s in
      elim r [ ok _ ↦ (ok tt, s') | err e ↦ (err e, s') ]
