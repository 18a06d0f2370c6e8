-- ===== src/Protocol/Connecting.antt =====
-- Connecting keeps to the protocol: it ends with a pipe whose greeting was accepted, or without one.
use kee_pass_key_win.Prelude.{refl, ◌∙◌}
use kee_pass_key_win.Prelude.{
  ℕ, Option, none, some, List, [], ◌∷◌, Text, Result, ok, err, ◌≡◌, arith, Result-cases, inl, inr,
}
use kee_pass_key_win.World.{Externals, PipeClient, Process, emit, slept, pipe_refused}
use kee_pass_key_win.World.Transcript.{transcript}
use kee_pass_key_win.Ipc.ClientError.{ClientError, io}
use kee_pass_key_win.Ipc.Client.{Session, try_connect, connect_from, connect, delays_ms}
use kee_pass_key_win.Ipc.Connecting.{try_connect-ok, try_connect-err}
use kee_pass_key_win.Registry.{read_handshake_nonce}
use kee_pass_key_win.OpSignKey.{get_op_sign_pub_key_bytes_for_hello}
use kee_pass_key_win.OpSignKey.Cache.{get_op_sign_pub_key_bytes_for_hello-KeyOnly}
use kee_pass_key_win.Connection.Frame.{handshake-IsShake}
use kee_pass_key_win.Connection.{pkg_family, hello, with_client, connect_and_handshake}
use kee_pass_key_win.Protocol.{closed, fresh, accepted, IsNonce, Talks, Phase}
use kee_pass_key_win.Protocol.Calls.{handshake-Greeted}

-- A pipe in the given phase, or none.
abbrev pub Leaves :
    {V : Type 0} → Externals V → (ℕ → Phase) → Result ClientError PipeClient × Process → Type 0
Leaves x s (ok c, q) = Talks x (s c.transport) q.history
Leaves x s (err e, q) = Talks x closed q.history

-- Calls that say nothing on the pipe.
pub Talks-spoken :
    {V : Type 0} (x : Externals V) (s : Phase) (p q : Process)
    → transcript q.history ≡ transcript p.history
    → Talks x s p.history
    → Talks x s q.history
Talks-spoken x s p q e t = ground (arith, e, t)

module _ {V : Type 0} (x : Externals V) where
  connect_from-Leaves :
      (ds : List ℕ) (last : Option ClientError) (sid : ℕ) (p : Process)
      → Talks x closed p.history
      → Leaves x fresh (connect_from x ds last sid p)
  unfolding connect_from try_connect
  connect_from-Leaves [] last sid p t = ground (arith, t)
  connect_from-Leaves (d ∷ ds) last sid p t = elim (Result-cases (x.open_pipe p.history sid)) [
    | inl (h, o) ↦
        rw (try_connect-ok x sid p h o, connect_from)
          (rw (try_connect-ok x sid p h o) (ground (arith, t)))
    | inr (e, o) ↦
        rw (try_connect-err x sid p e o, connect_from)
          (rw (try_connect-err x sid p e o) (
            connect_from-Leaves ds (some (io e)) sid (emit (slept d) (emit (pipe_refused sid) p))
              (ground (arith, t))))
  ]

  hello-Leaves :
      (c : PipeClient) (nonce : Text) (p : Process)
      → IsNonce x p.history nonce
      → Talks x (fresh c.transport) p.history
      → Leaves x accepted (hello x c nonce p)
  unfolding hello
  hello-Leaves c nonce p n t =
      let (key, q) = get_op_sign_pub_key_bytes_for_hello x p in
      let k = get_op_sign_pub_key_bytes_for_hello-KeyOnly x p in
      let s : Session = record { client = c; process = q } in
      let asked : IsNonce x q.history nonce = (n.0, k.asked ∙ n.1, n.2) in
      let spoken = Talks-spoken x (fresh c.transport) p q k.spoken t in
      ground (
        arith,
        handshake-Greeted x nonce key s asked spoken,
        (handshake-IsShake x pkg_family nonce key s).transport,
      )

  registered :
      (p : Process) (n : Text)
      → (read_handshake_nonce x p).0 ≡ ok n
      → IsNonce x (read_handshake_nonce x p).1.history n
  unfolding read_handshake_nonce
  registered p n e = (p.history, refl, e)

  with_client-Leaves :
      (r : Result ClientError PipeClient × Process)
      → Leaves x fresh r
      → Leaves x accepted (with_client x r)
  unfolding with_client
  with_client-Leaves (err e, p) t = t
  with_client-Leaves (ok c, p) t = elim (Result-cases (read_handshake_nonce x p).0) [
    | inl (n, e) ↦ rw e (
        hello-Leaves c n (read_handshake_nonce x p).1 (registered p n e)
          (Talks-spoken x _ p (read_handshake_nonce x p).1 (ground arith) t))
    | inr (n, e) ↦ rw e (ground (arith, t))
  ]

  -- From no pipe, connecting leaves a pipe whose greeting was accepted, or none.
  pub connect_and_handshake-Leaves :
      (sid : ℕ) (p : Process)
      → Talks x closed p.history
      → Leaves x accepted (connect_and_handshake x sid p)
  unfolding connect_and_handshake connect
  connect_and_handshake-Leaves sid p t =
      with_client-Leaves (connect x sid p) (connect_from-Leaves delays_ms none sid p t)
