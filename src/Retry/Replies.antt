-- ===== src/Retry/Replies.antt =====
-- What a caller of the retry gets, and what becomes of the shared state, in each of its outcomes.
use kee_pass_key_win.Prelude.{
  ℕ, ◌+◌, ◌≤◌, true, false, none, some, List, String, Result, ok, err, ◌≡◌, ◌≢◌, ◌∙◌, ap, arith,
  get_elem?, Option-cases, inl, inr, get_elem?-set_ne,
}
use kee_pass_key_win.World.{
  Externals, PipeClient, AuthenticatorState, Process, pipe_of, session_of, set_pipe,
}
use kee_pass_key_win.World.Counts.{attempts, lines_sent}
use kee_pass_key_win.Ipc.ClientError.{ClientError}
use kee_pass_key_win.Ipc.Client.{Session, call_value}
use kee_pass_key_win.Ipc.Classify.{clear_slot}
use kee_pass_key_win.Connection.{drop_client, connect_and_handshake, clear_shared_state}
use kee_pass_key_win.Retry.Frame.{IsRetry, orchestrate-IsRetry}
use kee_pass_key_win.Retry.{
  CallOutcome, is_stale, retry, after_first, orchestrate, reconcile_state, take_call_with_retry,
}

module _ {V : Type 0} (x : Externals V) (method : String) (params : V) (arc : ℕ) (p : Process) where
  -- The session on which a held pipe is called.
  abbrev session_on : PipeClient → Session
  session_on pipe = record { client = pipe; process = set_pipe arc none p }

  -- With a pipe that is held, the call is the future followed by the reconciliation.
  pub take_call_with_retry-held :
      (pipe : PipeClient)
      → pipe_of (get_elem? p.arcs arc) ≡ some pipe
      → take_call_with_retry x method params arc p ≡ (
          let o =
            orchestrate x method params pipe
              (session_of (get_elem? p.arcs arc))
              (set_pipe arc none p) in
          (some o.result, reconcile_state x method params arc o))
  unfolding take_call_with_retry
  take_call_with_retry-held pipe h = rw (h, take_call_with_retry)

  abbrev pub sid : ℕ
  sid = session_of (get_elem? p.arcs arc)

  after_first-live :
      (r : Result ClientError V) (s : Session)
      → is_stale r ≡ false
      → after_first x method params sid (r, s)
        ≡ record { result = r; fresh = some s.client; process = s.process }
  unfolding after_first
  after_first-live r s live = rw (live, after_first)

  after_first-stale :
      (r : Result ClientError V) (s : Session)
      → is_stale r ≡ true
      → after_first x method params sid (r, s)
        ≡ retry x method params (connect_and_handshake x sid (drop_client s.client s.process))
  unfolding after_first
  after_first-stale r s dead = rw (dead, after_first)

  module _ (pipe : PipeClient) (held : pipe_of (get_elem? p.arcs arc) ≡ some pipe) where
    -- The first attempt, and the connection that follows it if the pipe is stale.
    abbrev pub first : Result ClientError V × Session
    first = call_value x method params (record { client = pipe; process = set_pipe arc none p })

    abbrev pub reconnection : Result ClientError PipeClient × Process
    reconnection = connect_and_handshake x sid (drop_client first.1.client first.1.process)

    from_outcome :
        (o : CallOutcome V)
        → after_first x method params sid first ≡ o
        → take_call_with_retry x method params arc p
          ≡ (some o.result, reconcile_state x method params arc o)
    unfolding take_call_with_retry orchestrate
    from_outcome o e = rw (held, take_call_with_retry) (rw e)

    -- A call whose first attempt is not stale answers what that attempt answered: nothing is sent
    -- again, no connection is opened, and the pipe is back in the state.
    pub take_call_with_retry-live :
        is_stale first.0 ≡ false
        → take_call_with_retry x method params arc p
          ≡ (some first.0, set_pipe arc (some first.1.client) first.1.process)
    unfolding reconcile_state
    take_call_with_retry-live live = from_outcome _ (after_first-live first.0 first.1 live)

    -- A call whose first attempt finds the pipe stale drops it and connects anew. If that succeeds,
    -- the same method with the same parameters is called once more on the new pipe, its answer is
    -- the answer whatever it is, and the state holds the new pipe.
    pub take_call_with_retry-retried :
        (fresh : PipeClient) (q : Process)
        → is_stale first.0 ≡ true
        → reconnection ≡ (ok fresh, q)
        → let (r, s) = call_value x method params (record { client = fresh; process = q }) in
          take_call_with_retry x method params arc p
          ≡ (some r, set_pipe arc (some s.client) s.process)
    unfolding reconcile_state retry
    take_call_with_retry-retried fresh q dead e =
        from_outcome _ (after_first-stale first.0 first.1 dead ∙ ap (retry x method params) e)

    -- If the connection fails, its error is the answer, nothing is sent again, no pipe is put back
    -- into the state, and the state is shared no longer, so that the next activation starts anew.
    pub take_call_with_retry-lost :
        (e : ClientError) (q : Process)
        → is_stale first.0 ≡ true
        → reconnection ≡ (err e, q)
        → take_call_with_retry x method params arc p
          ≡ (some (err e), record q { shared_state = none })
    unfolding reconcile_state retry clear_shared_state clear_slot
    take_call_with_retry-lost e q dead c =
        from_outcome _ (after_first-stale first.0 first.1 dead ∙ ap (retry x method params) c)

-- Between two states of the process, at most three lines were sent to the plugin and at most eight
-- connections attempted, and no state but that of `arc` was written.
pub record IsBounded (arc : ℕ) (p q : Process) : Type 0 where
  pub sent : lines_sent q.history ≤ lines_sent p.history + 3
  pub tried : attempts q.history ≤ attempts p.history + 8
  pub others : (j : ℕ) → arc ≢ j → get_elem? q.arcs j ≡ get_elem? p.arcs j

module _ {V : Type 0} (x : Externals V) (method : String) (params : V) (arc : ℕ) (p : Process) where
  abbrev the_session : ℕ
  the_session = session_of (get_elem? p.arcs arc)

  others-orchestrate :
      (q : Process) (j : ℕ)
      → q.arcs ≡ (set_pipe arc none p).arcs
      → arc ≢ j
      → get_elem? q.arcs j ≡ get_elem? p.arcs j
  others-orchestrate q j e ne =
      ap (λ (xs : List AuthenticatorState). get_elem? xs j) e ∙ get_elem?-set_ne p.arcs arc j _ ne

  reconcile_state-IsBounded :
      (o : CallOutcome V)
      → IsRetry (set_pipe arc none p) o
      → IsBounded arc p (reconcile_state x method params arc o)
  unfolding reconcile_state clear_shared_state
  reconcile_state-IsBounded o k =
      let arcs = ap (λ (q : Process). q.arcs) k.kept in
      elim (Option-cases o.fresh) [
        | inl e ↦
            rw (e, reconcile_state)
              (record {
                sent = k.sent;
                tried = k.tried;
                others = λ j ne. others-orchestrate o.process j arcs ne;
              })
        | inr (f, e) ↦
            rw (e, reconcile_state)
              (record {
                sent = k.sent;
                tried = k.tried;
                others = λ j ne.
                    get_elem?-set_ne o.process.arcs arc j _ ne
                    ∙ others-orchestrate o.process j arcs ne;
              })
      ]

  -- One call with its retry sends at most three lines (the call, a hello, and the call again) and
  -- makes at most eight attempts to connect, whatever comes back, and it touches no other state.
  pub take_call_with_retry-IsBounded :
      IsBounded arc p (take_call_with_retry x method params arc p).1
  unfolding take_call_with_retry
  take_call_with_retry-IsBounded = elim (Option-cases (pipe_of (get_elem? p.arcs arc))) [
    | inl e ↦ rw (e, take_call_with_retry) (ground arith)
    | inr (c, h) ↦
        rw (h, take_call_with_retry)
          (reconcile_state-IsBounded _
            (orchestrate-IsRetry x method params c the_session (set_pipe arc none p)))
  ]
