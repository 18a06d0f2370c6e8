-- ===== src/CommandLine/Bounds.antt =====
-- What a command of src/KeePassKeyWin.Provider/src/main.rs leaves behind: no pipe, and as many lines as
-- its result tells of.
use kee_pass_key_win.Prelude.{
  ℕ, ◌+◌, ◌≤◌, Option, none, some, List, Text, Result, ok, err, ◌≡◌, arith, Exec,
}
use kee_pass_key_win.World.{Process, PipeClient}
use kee_pass_key_win.World.Counts.{
  attempts, pipes_opened, pipes_closed, lines_sent, OnePipe, IsQuiet,
}
use kee_pass_key_win.Ipc.ClientError.{ClientError}
use kee_pass_key_win.Ipc.Client.{Session, connect, delays_ms}
use kee_pass_key_win.Ipc.Connecting.{Connected, connect_bounds}
use kee_pass_key_win.Connection.{pkg_family, drop_client}
use kee_pass_key_win.OpSignKey.{get_op_sign_pub_key_bytes_for_hello}
use kee_pass_key_win.OpSignKey.Cache.{get_op_sign_pub_key_bytes_for_hello-KeyOnly}
use kee_pass_key_win.CommandLine.{
  Stop, parse_session_nonce, shake, on_client, connected, cmd_smoke, cmd_make_credential,
}
use kee_pass_key_win.CommandLine.Nonce.{read_nonce_from_registry}
use kee_pass_key_win.CommandLine.Outside.{CommandExternals}
use kee_pass_key_win.CommandLine.Counts.{
  completed, attempted, Counts, handshake-Sends, make-Counts, smoke-Counts,
}

-- From a process `p` to a process `q` with a result; `alive` is the number of pipes left open.
pub record IsCommand {A : Type 0} (n alive : ℕ) (p : Process) (r : Result Stop A) (q : Process)
    : Type 0 where
  pub least : lines_sent p.history + completed n r ≤ lines_sent q.history
  pub most : lines_sent q.history ≤ lines_sent p.history + attempted n r
  pub tried : attempts q.history ≤ attempts p.history + 8
  pub balance :
      pipes_opened q.history + pipes_closed p.history
      ≡ pipes_opened p.history + pipes_closed q.history + alive
  pub kept : q ≡ record p { history = q.history; op_sign_key = q.op_sign_key }
  pub one : pipes_opened p.history ≤ pipes_closed p.history → OnePipe p.history → OnePipe q.history

abbrev held : {A : Type 0} → Result Stop A → ℕ
held (ok c) = 1
held (err e) = 0

-- How many lines a failure tells of does not depend on the rest of the command.
completed_err :
    (A B : Type 0) (n m : ℕ) (e : Stop) → completed {A = A} n (err e) ≡ completed {A = B} m (err e)
completed_err A B n m e = ground arith

attempted_err :
    (A B : Type 0) (n m : ℕ) (e : Stop) → attempted {A = A} n (err e) ≡ attempted {A = B} m (err e)
attempted_err A B n m e = ground arith

module _ {V : Type 0} (x : CommandExternals V) where
  shake-IsCommand :
      (nonce : Text) (p : Process) (r : Result ClientError PipeClient × Process)
      → Connected delays_ms p r
      → let (s, q) = shake x nonce r in IsCommand 1 (held s) p s q
  unfolding shake drop_client
  shake-IsCommand nonce p (err e, q) h = ground arith
  shake-IsCommand nonce p (ok c, q) h =
      let (key, q1) = get_op_sign_pub_key_bytes_for_hello x.base q in
      let s : Session = record { client = c; process = q1 } in
      ground (
        arith,
        get_op_sign_pub_key_bytes_for_hello-KeyOnly x.base q,
        handshake-Sends x pkg_family nonce key s,
      )

  on_client-IsCommand :
      {A : Type 0} (n : ℕ) (body : Exec Session Stop A) (p : Process)
      (r : Result Stop PipeClient × Process)
      → Counts n 1 body
      → IsCommand 1 (held r.0) p r.0 r.1
      → let (s, q) = on_client x body r in IsCommand n 0 p s q
  unfolding on_client drop_client
  on_client-IsCommand {A} n body p (err e, q) b h =
      ground (arith, completed_err A PipeClient n 1 e, attempted_err A PipeClient n 1 e)
  on_client-IsCommand n body p (ok c, q) b h =
      let s : Session = record { client = c; process = q } in ground (arith, b s)

  -- Reading the arguments and the registry.
  record IsReading (p q : Process) : Type 0 where
    sent : lines_sent q.history ≡ lines_sent p.history
    quiet : IsQuiet p.history q.history
    kept : q ≡ record p { history = q.history }

  parse_session_nonce-IsReading :
      (args : List Text) (p : Process) → IsReading p (parse_session_nonce x args p).1
  unfolding parse_session_nonce read_nonce_from_registry
  parse_session_nonce-IsReading args p = ground arith

  connected-IsCommand :
      {A : Type 0} (n : ℕ) (body : Exec Session Stop A) (p : Process)
      (r : Option (ℕ × Text) × Process)
      → Counts n 1 body
      → IsReading p r.1
      → let (s, q) = connected x body r in IsCommand n 0 p s q
  unfolding connected
  connected-IsCommand n body p (none, q) b h = ground arith
  connected-IsCommand n body p (some (sid, nonce), q) b h =
      let r = connect x.base sid q in
      let done =
        on_client-IsCommand n body q (shake x nonce r) b
          (shake-IsCommand nonce q r (connect_bounds x.base sid q)) in
      ground (arith, done)

  module _ (args : List Text) (p : Process) where
    -- `make-credential`, however it ends, leaves no pipe open that was not open before, makes at most
    -- eight attempts to connect, and has sent as many lines as its result tells of: none if there was
    -- no nonce or no connection, at most the hello if the handshake failed, the lines of all steps
    -- before the one that failed and at most that of the failed one, and exactly five if it succeeded.
    -- Nothing else of the process changes but the cached key; where no pipe was open before, two are
    -- never open at once.
    pub cmd_make_credential-IsCommand :
        let (r, q) = cmd_make_credential x args p in IsCommand 5 0 p r q
    unfolding cmd_make_credential
    cmd_make_credential-IsCommand =
        connected-IsCommand 5 _ p _ (make-Counts x _ _) (parse_session_nonce-IsReading args p)

    -- The same for `smoke`, which sends exactly the hello if it succeeds.
    pub cmd_smoke-IsCommand : let (r, q) = cmd_smoke x args p in IsCommand 1 0 p r q
    unfolding cmd_smoke
    cmd_smoke-IsCommand =
        connected-IsCommand 1 _ p _ (smoke-Counts x) (parse_session_nonce-IsReading args p)
