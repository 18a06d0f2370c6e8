-- ===== src/Protocol/Calls.antt =====
-- One JSON-RPC call on the pipe, and the greeting, keep to the protocol.
use kee_pass_key_win.Prelude.{
  ℕ, Option, none, some, List, String, Text, Result, ok, err, ◌≡◌, arith, Result-cases, inl, inr,
}
use kee_pass_key_win.World.{Externals, RpcRequest, HelloParams}
use kee_pass_key_win.World.Transcript.{transcript}
use kee_pass_key_win.Ipc.ClientError.{ClientError}
use kee_pass_key_win.Ipc.Client.{
  Session, request, call, handshake, send_line, recv_line, read_response,
}
use kee_pass_key_win.Connection.{pkg_family}
use kee_pass_key_win.Protocol.{fresh, accepted, IsGreeting, IsNonce, Conforms, IsOpen, phase, Talks}

-- What was said conforms, and the greeting was accepted if the result is a success.
abbrev pub Greeted : {V A : Type 0} → Externals V → ℕ → Result ClientError A → Session → Type 0
Greeted x h (ok a) t = Talks x (accepted h) t.process.history
Greeted x h (err e) t =
    Conforms x (transcript t.process.history) × IsOpen x (phase x (transcript t.process.history)) h

module _ {V P R : Type 0} (x : Externals V) (ser : RpcRequest P → Result Text Text)
    (de : V → Result Text R) (method : String) (params : P) (s : Session) where
  -- On a pipe whose greeting was accepted, a call may say what it says, and it stays accepted.
  pub call-accepted :
      Talks x (accepted s.client.transport) s.process.history
      → Talks x (accepted s.client.transport) (call x ser de method params s).1.process.history
  unfolding call send_line recv_line read_response
  call-accepted t = ground (arith, t)

module _ {V P : Type 0} (x : Externals V) (ser : RpcRequest P → Result Text Text) (method : String)
    (params : P) (s : Session) where
  call-greets :
      (line : Text)
      → ser (request x method params s) ≡ ok line
      → IsGreeting x s.process.history line
      → Talks x (fresh s.client.transport) s.process.history
      → let (r, t) = call x ser x.value_from_value method params s in
        Greeted x s.client.transport r t
  unfolding call send_line recv_line read_response
  call-greets line e g t = ground (arith, e, g, t)

  call-unsaid :
      (e : Text)
      → ser (request x method params s) ≡ err e
      → Talks x (fresh s.client.transport) s.process.history
      → let (r, t) = call x ser x.value_from_value method params s in
        Greeted x s.client.transport r t
  unfolding call send_line recv_line read_response
  call-unsaid m e t = ground (arith, e, t)

module _ {V : Type 0} (x : Externals V) where
  -- The greeting, on a fresh pipe.
  pub handshake-Greeted :
      (nonce : Text) (key : Option (List ℕ)) (s : Session)
      → IsNonce x s.process.history nonce
      → Talks x (fresh s.client.transport) s.process.history
      → let (r, t) = handshake x pkg_family nonce key s in Greeted x s.client.transport r t
  unfolding handshake
  handshake-Greeted nonce none s n t = ground (arith, t)
  handshake-Greeted nonce (some key) s n t =
      let params : HelloParams = record {
        client_pkg_family_name = pkg_family;
        handshake_nonce = nonce;
        op_sign_public_key_b64 = x.b64_encode key;
      } in
      let hello : String = "keepasskeywin.hello" in
      elim (Result-cases (x.hello_to_string (request x hello params s))) [
        | inl (line, e) ↦
            let g =
              call-greets x x.hello_to_string hello params s line e
                (nonce, n, key, s.client.next_id, e) t in
            ground (arith, g)
        | inr (m, e) ↦ ground (arith, call-unsaid x x.hello_to_string hello params s m e t)
      ]
