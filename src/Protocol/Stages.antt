-- ===== src/Protocol/Stages.antt =====
-- The stages of a flight keep to the protocol, and so does the state that is left when it lands.
use kee_pass_key_win.Prelude.{
  ℕ, Bool, true, false, Option, none, some, String, Result, ok, err, ◌≡◌, arith, Bool-cases, inl,
  inr, to_option, List, [], ◌∷◌, ◌++◌, ◌<◌, ◌∙◌, length, sym, ap, subst, get_elem?,
  get_elem?-set_self, get_elem?-append_self,
}
use kee_pass_key_win.World.{Externals, PipeClient, AuthenticatorState, Process, pipe_of, set_pipe}
use kee_pass_key_win.Ipc.ClientError.{ClientError}
use kee_pass_key_win.Ipc.Classify.{clear_slot}
use kee_pass_key_win.Ipc.Client.{Session, call_value}
use kee_pass_key_win.Connection.{drop_client, connect_and_handshake, clear_shared_state}
use kee_pass_key_win.Retry.{is_stale}
use kee_pass_key_win.Retry.Frame.{call_value-OneCall}
use kee_pass_key_win.ComObject.{allocate_state}
use kee_pass_key_win.Flight.{
  Stage, calling, reconnecting, retrying, answered, Flight, after_call, after_connection, advance,
  land,
}
use kee_pass_key_win.Protocol.{Phase, closed, accepted, Talks}
use kee_pass_key_win.Protocol.Calls.{call-accepted}
use kee_pass_key_win.Protocol.Connecting.{Leaves, connect_and_handshake-Leaves}

-- The phase between the calls, by the pipe that is held.
abbrev pub phase_of : Option PipeClient → Phase
phase_of none = closed
phase_of (some c) = accepted c.transport

-- The pipe that a flight holds, and the one in the shared state.
abbrev pub pipe_in : {V : Type 0} → Stage V → Option PipeClient
pipe_in (calling c) = some c
pipe_in reconnecting = none
pipe_in (retrying c) = some c
pipe_in (answered r fresh) = fresh

abbrev pub pipe_at : Option ℕ → List AuthenticatorState → Option PipeClient
pipe_at none arcs = none
pipe_at (some arc) arcs = pipe_of (get_elem? arcs arc)

abbrev pub shared_pipe : Process → Option PipeClient
shared_pipe p = pipe_at p.shared_state p.arcs

module _ {V : Type 0} (x : Externals V) where
  call_value-accepted :
      (method : String) (params : V) (s : Session)
      → Talks x (accepted s.client.transport) s.process.history
      → let t = (call_value x method params s).1 in
        Talks x (accepted t.client.transport) t.process.history
  unfolding call_value
  call_value-accepted method params s t =
      let said = call-accepted x x.request_to_string x.value_from_value method params s t in
      let same = (call_value-OneCall x method params s).transport in ground (arith, said, same)

  drop_client-closed :
      (c : PipeClient) (p : Process)
      → Talks x (accepted c.transport) p.history
      → Talks x closed (drop_client c p).history
  unfolding drop_client
  drop_client-closed c p t = ground (arith, t)

  -- The stages of a flight.
  after_call-Talks :
      (retries : Bool) (r : Result ClientError V) (s : Session)
      → Talks x (accepted s.client.transport) s.process.history
      → let (stage, q) = after_call x retries (r, s) in Talks x (phase_of (pipe_in stage)) q.history
  after_call-Talks false r s t = t
  after_call-Talks true r s t = elim (Bool-cases (is_stale r)) [
    | inl e ↦ rw e (drop_client-closed s.client s.process t)
    | inr e ↦ rw e t
  ]

  after_connection-Talks :
      (r : Result ClientError PipeClient × Process)
      → Leaves x accepted r
      → let (stage, q) = after_connection x r in Talks x (phase_of (pipe_in stage)) q.history
  after_connection-Talks (ok c, q) t = t
  after_connection-Talks (err e, q) t = t

  pub advance-Talks :
      (f : Flight V) (stage : Stage V) (p : Process)
      → Talks x (phase_of (pipe_in stage)) p.history
      → let (s, q) = advance x f stage p in Talks x (phase_of (pipe_in s)) q.history
  unfolding advance
  advance-Talks f (calling c) p t =
      let s : Session = record { client = c; process = p } in
      let (r, u) = call_value x f.method f.params s in
      after_call-Talks f.retries r u (call_value-accepted f.method f.params s t)
  advance-Talks f reconnecting p t =
      after_connection-Talks (connect_and_handshake x f.session_id p)
        (connect_and_handshake-Leaves x f.session_id p t)
  advance-Talks f (retrying c) p t =
      call_value-accepted f.method f.params (record { client = c; process = p }) t
  advance-Talks f (answered r fresh) p t = t

  -- Where the pipe ends, the state that it is put back into is the shared one.
  pub land-Talks :
      (f : Flight V) (r : Result ClientError V) (fresh : Option PipeClient) (p : Process)
      → p.shared_state ≡ some f.arc
      → f.arc < length p.arcs
      → Talks x (phase_of fresh) p.history
      → let q = land x f r fresh p in Talks x (phase_of (shared_pipe q)) q.history
  unfolding land clear_shared_state clear_slot
  land-Talks f r none p e lt t = t
  land-Talks f r (some c) p e lt t =
      let there : shared_pipe (set_pipe f.arc (some c) p) ≡ some c =
        ap (λ s. pipe_at s (set_pipe f.arc (some c) p).arcs) e
        ∙ ap pipe_of (get_elem?-set_self p.arcs f.arc _ lt) in
      subst (λ o. Talks x (phase_of o) p.history) (sym there) t

  -- An activation connects only if no state is shared.
  pub allocate_state-Talks :
      (sid : ℕ) (r : Result ClientError PipeClient) (q : Process)
      → q.shared_state ≡ none
      → Leaves x accepted (r, q)
      → let p = (allocate_state sid (to_option r) q).1 in
        Talks x (phase_of (shared_pipe p)) p.history
  unfolding allocate_state
  allocate_state-Talks sid (ok c) q e t =
      let new : AuthenticatorState = record { session_id = sid; pipe = some c } in
      let there : pipe_of (get_elem? (q.arcs ++ new ∷ []) (length q.arcs)) ≡ some c =
        ap pipe_of (get_elem?-append_self q.arcs new) in
      subst (λ o. Talks x (phase_of o) q.history) (sym there) t
  allocate_state-Talks sid (err m) q e t =
      let gone = ap (λ s. pipe_at s (allocate_state sid none q).1.arcs) e in
      subst (λ o. Talks x (phase_of o) q.history) (sym gone) t
