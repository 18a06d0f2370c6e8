-- ===== src/Protocol.antt =====
-- The protocol that the provider keeps to on the plugin's pipe: one pipe at a time
-- is open, it is greeted first, and nothing else is sent before the greeting was accepted. It is stated
-- on the calls that a process has made, apart from the code that makes them
-- (src/KeePassKeyWin.Provider/src/ipc/mod.rs and com/exe_server.rs).
pub mod Calls
pub mod Connecting
pub mod Stages
pub mod Moves
use kee_pass_key_win.Prelude.{ℕ, List, [], ◌∷◌, Text, Option, some, none, Result, ok, err, ◌≡◌}
use kee_pass_key_win.World.{
  Event, pipe_opened, pipe_closed, wrote, line_read, Externals, History, IoError, RpcResponse,
}
use kee_pass_key_win.World.Transcript.{transcript, last_asked}
use kee_pass_key_win.Ipc.Client.{pop_newline, or_null}
use kee_pass_key_win.Registry.{read_reply}
use kee_pass_key_win.Connection.{pkg_family}

-- Where the pipe is: there is none; or one with a handle, which is fresh, whose greeting is under way, or
-- which the plugin accepted.
pub data Phase : Type 0 where
  closed : Phase
  fresh greeting accepted : ℕ → Phase

module _ {V : Type 0} (x : Externals V) where
  -- After a response has been read during the greeting: the plugin accepts it by one without an error,
  -- whose result can be taken.
  abbrev after_result : ℕ → Result Text V → Phase
  after_result h (ok v) = accepted h
  after_result h (err e) = greeting h

  abbrev after_response : ℕ → RpcResponse V → Phase
  after_response h r = elim r.error [
    | some e ↦ greeting h
    | none ↦ after_result h (x.value_from_value (or_null x r.result))
  ]

  abbrev after_line : ℕ → Result Text (RpcResponse V) → Phase
  after_line h (ok response) = after_response h response
  after_line h (err e) = greeting h

  abbrev after_read : ℕ → Result IoError Text → Phase
  after_read h (ok buf) = after_line h (x.response_from_str (pop_newline buf))
  after_read h (err e) = greeting h

  -- What a line that was read makes of the phase, and what a write makes of it.
  abbrev heard : Result IoError Text → Phase → Phase
  heard r (greeting h) = after_read h r
  heard r s = s

  abbrev said : Phase → Phase
  said (fresh h) = greeting h
  said s = s

  -- The phase after what was said.
  abbrev pub phase : List (Event × History) → Phase
  phase [] = closed
  phase ((pipe_opened s h, k) ∷ t) = fresh h
  phase ((pipe_closed h, k) ∷ t) = closed
  phase ((wrote h l, k) ∷ t) = said (phase t)
  phase ((line_read h, k) ∷ t) = heard (x.read_line k h) (phase t)
  phase (_ ∷ t) = phase t

  -- The nonce that the registry gave when it was last asked.
  abbrev pub IsNonce : History → Text → Type 0
  IsNonce k nonce =
      (h : History) × (last_asked k ≡ some h) × (read_reply (x.reg_get_value h) ≡ ok nonce)

  -- The line of a greeting with such a nonce, for some key and request number.
  abbrev pub IsGreeting : History → Text → Type 0
  IsGreeting k line =
      (nonce : Text) × IsNonce k nonce
      × (key : List ℕ) × (id : ℕ) × (x.hello_to_string (record {
        jsonrpc = "2.0";
        id = id;
        method = "keepasskeywin.hello";
        params = record {
          client_pkg_family_name = pkg_family;
          handshake_nonce = nonce;
          op_sign_public_key_b64 = x.b64_encode key;
        };
      })
          ≡ ok line)

  -- What may be written, in a phase, after the given calls and to a handle.
  abbrev pub Admits : Phase → History → ℕ → Text → Type 0
  Admits closed k h line = ⊥
  Admits (fresh g) k h line = (h ≡ g) × IsGreeting k line
  Admits (greeting g) k h line = (h ≡ g) × (line ≡ 10 ∷ [])
  Admits (accepted g) k h line = h ≡ g

  -- Which handle may be read from, and which may be closed.
  abbrev Answers : Phase → ℕ → Type 0
  Answers closed h = ⊥
  Answers (fresh g) h = ⊥
  Answers (greeting g) h = h ≡ g
  Answers (accepted g) h = h ≡ g

  abbrev pub IsOpen : Phase → ℕ → Type 0
  IsOpen closed h = ⊥
  IsOpen (fresh g) h = h ≡ g
  IsOpen (greeting g) h = h ≡ g
  IsOpen (accepted g) h = h ≡ g

  -- Everything that was said was allowed then: a pipe is opened where there is none, and it alone is
  -- written to, read from and closed.
  abbrev pub Conforms : List (Event × History) → Type 0
  Conforms [] = Unit
  Conforms ((pipe_opened s h, k) ∷ t) = (phase t ≡ closed) × Conforms t
  Conforms ((pipe_closed h, k) ∷ t) = IsOpen (phase t) h × Conforms t
  Conforms ((wrote h l, k) ∷ t) = Admits (phase t) k h l × Conforms t
  Conforms ((line_read h, k) ∷ t) = Answers (phase t) h × Conforms t
  Conforms (_ ∷ t) = Conforms t

  -- Conformance up to now, with the phase.
  pub record Talks (s : Phase) (h : History) : Type 0 where
    pub conforms : Conforms (transcript h)
    pub now : phase (transcript h) ≡ s
