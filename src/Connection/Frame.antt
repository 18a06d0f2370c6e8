-- ===== src/Connection/Frame.antt =====
-- Connecting and shaking hands: at most one pipe is left open, only in the hands of the caller.
use kee_pass_key_win.Prelude.{
  ◌+◌, ◌≤◌, ok, err, ◌≡◌, arith, Result-cases, inl, inr, Result, Option, none, some, List, String,
  Text, ℕ,
}
use kee_pass_key_win.World.{Externals, PipeClient, Process, HelloParams}
use kee_pass_key_win.World.Counts.{
  attempts, pipes_opened, pipes_closed, lines_sent, OnePipe, IsQuiet, IsUncounted, IsSettled,
  published,
}
use kee_pass_key_win.Ipc.ClientError.{ClientError}
use kee_pass_key_win.Ipc.Client.{Session, delays_ms, handshake}
use kee_pass_key_win.Ipc.Calls.{call-OneCall}
use kee_pass_key_win.Ipc.Connecting.{Connected, connect_bounds}
use kee_pass_key_win.Registry.{read_handshake_nonce}
use kee_pass_key_win.OpSignKey.{get_op_sign_pub_key_bytes_for_hello}
use kee_pass_key_win.OpSignKey.Cache.{get_op_sign_pub_key_bytes_for_hello-KeyOnly}
use kee_pass_key_win.Connection.{pkg_family, hello, with_client, connect_and_handshake}

-- One pipe was opened and none closed, or as many were closed as opened.
abbrev pub Balance : Process → Result ClientError PipeClient × Process → Type 0
Balance p (ok c, q) =
    pipes_opened q.history + pipes_closed p.history
    ≡ pipes_opened p.history + pipes_closed q.history + 1
Balance p (err e, q) =
    pipes_opened q.history + pipes_closed p.history
    ≡ pipes_opened p.history + pipes_closed q.history

-- What connecting may change: the calls made, at most eight attempts and one line among them, and
-- the cache of the key.
pub record IsConnecting (p q : Process) : Type 0 where
  pub tried : attempts q.history ≤ attempts p.history + 8
  pub sent : lines_sent q.history ≤ lines_sent p.history + 1
  pub kept : q ≡ record p { history = q.history; op_sign_key = q.op_sign_key }
  pub refs : IsUncounted p.history q.history
  pub settled : IsSettled p.history q.history
  pub told : published q.history ≡ published p.history
  pub one : pipes_opened p.history ≤ pipes_closed p.history → OnePipe p.history → OnePipe q.history

-- A handshake on a session: at most one call, on the same pipe.
pub record IsShake (s t : Session) : Type 0 where
  pub transport : t.client.transport ≡ s.client.transport
  sent : lines_sent t.process.history ≤ lines_sent s.process.history + 1
  kept : t.process ≡ record s.process { history = t.process.history }
  refs : IsUncounted s.process.history t.process.history
  settled : IsSettled s.process.history t.process.history
  told : published t.process.history ≡ published s.process.history
  quiet : IsQuiet s.process.history t.process.history

-- The hello step: a failure closes the pipe that it was given.
abbrev Closes : Process → Result ClientError PipeClient × Process → Type 0
Closes p (ok c, q) = pipes_closed q.history ≡ pipes_closed p.history
Closes p (err e, q) = pipes_closed q.history ≡ pipes_closed p.history + 1

record IsHello (p q : Process) : Type 0 where
  opened : pipes_opened q.history ≡ pipes_opened p.history
  tried : attempts q.history ≡ attempts p.history
  sent : lines_sent q.history ≤ lines_sent p.history + 1
  kept : q ≡ record p { history = q.history; op_sign_key = q.op_sign_key }
  refs : IsUncounted p.history q.history
  settled : IsSettled p.history q.history
  told : published q.history ≡ published p.history
  one : pipes_opened p.history ≤ pipes_closed p.history + 1 → OnePipe p.history → OnePipe q.history

module _ {V : Type 0} (x : Externals V) where
  pub handshake-IsShake :
      (family : String) (nonce : Text) (key : Option (List ℕ)) (s : Session)
      → IsShake s (handshake x family nonce key s).1
  unfolding handshake
  handshake-IsShake family nonce none s = ground arith
  handshake-IsShake family nonce (some k) s =
      let params : HelloParams = record {
        client_pkg_family_name = family;
        handshake_nonce = nonce;
        op_sign_public_key_b64 = x.b64_encode k;
      } in
      ground
        (arith, call-OneCall x x.hello_to_string x.value_from_value "keepasskeywin.hello" params s)

  hello-IsHello :
      (c : PipeClient) (nonce : Text) (p : Process)
      → Closes p (hello x c nonce p) × IsHello p (hello x c nonce p).1
  unfolding hello
  hello-IsHello c nonce p =
      let (key, p1) = get_op_sign_pub_key_bytes_for_hello x p in
      let s : Session = record { client = c; process = p1 } in
      ground (
        arith,
        get_op_sign_pub_key_bytes_for_hello-KeyOnly x p,
        handshake-IsShake pkg_family nonce key s,
      )

  with_client-frame :
      (p : Process) (r : Result ClientError PipeClient × Process)
      → Connected delays_ms p r
      → Balance p (with_client x r) × IsConnecting p (with_client x r).1
  unfolding with_client
  with_client-frame p (err e, q) h = ground arith
  with_client-frame p (ok c, q) h = elim (Result-cases (read_handshake_nonce x q).0) [
    | inl (n, e) ↦ rw e (ground (arith, hello-IsHello c n (read_handshake_nonce x q).1))
    | inr (n, e) ↦ rw e (ground arith)
  ]

  -- Connecting opens one pipe more than it closes if it succeeds, and as many as it closes if it
  -- fails. It makes at most eight attempts and sends at most one line, and changes nothing of the
  -- process but the calls made and the cached key; where no pipe was open before, two are never open at once.
  pub connect_and_handshake-frame :
      (session_id : ℕ) (p : Process)
      → let r = connect_and_handshake x session_id p in Balance p r × IsConnecting p r.1
  unfolding connect_and_handshake
  connect_and_handshake-frame session_id p = with_client-frame p _ (connect_bounds x session_id p)
