-- ===== src/Flight/Refinement.antt =====
-- The calls of `Server`, each taken as a whole, are runs of the moves of the threads.
use kee_pass_key_win.Prelude.{
  ℕ, zero, true, false, Option, none, some, [], ◌∷◌, String, Result, ok, err, ◌≡◌, sym, ap, refl,
  subst, get_elem?, Bool-cases, Result-cases, Option-cases, inl, inr,
}
use kee_pass_key_win.World.{Externals, PipeClient, Process, pipe_of, session_of, set_pipe}
use kee_pass_key_win.Ipc.ClientError.{ClientError}
use kee_pass_key_win.Ipc.Client.{Session, call_value}
use kee_pass_key_win.Connection.{drop_client, connect_and_handshake}
use kee_pass_key_win.Retry.{is_stale, reconcile_state, take_call_with_retry}
use kee_pass_key_win.Retry.Replies.{
  take_call_with_retry-live, take_call_with_retry-retried, take_call_with_retry-lost,
}
use kee_pass_key_win.Flight.{
  Stage, calling, reconnecting, retrying, answered, Flight, System, take_off, after_connection,
  advance, land, taken, advanced, landed, Moves, start, next,
}

-- The system between the calls.
abbrev pub idle : {V : Type 0} → Process → System V
idle p = record { process = p; flights = [] }

-- The system with one flight.
abbrev pub flying : {V : Type 0} → Flight V → Stage V → Process → System V
flying f stage p = record { process = p; flights = record f { stage = stage } ∷ [] }

module _ {V : Type 0} (x : Externals V) where
  pub Moves-trans : (s t u : System V) → Moves x s t → Moves x t u → Moves x s u
  Moves-trans s t _ a start = a
  Moves-trans s t u a (next v _ b m) = next v u (Moves-trans s t v a b) m

  -- A flight goes on.
  pub advance-Moves :
      (s : System V) (f : Flight V) (stage after : Stage V) (p q : Process)
      → advance x f stage p ≡ (after, q)
      → Moves x s (flying f stage p)
      → Moves x s (flying f after q)
  unfolding advance
  advance-Moves s f stage after p q e before =
      subst (λ (r : Stage V × Process). Moves x s (flying f r.0 r.1)) e
        (next (flying f stage p) _ before (advanced zero (record f { stage = stage }) refl))

  -- A flight lands.
  pub land-Moves :
      (s : System V) (f : Flight V) (r : Result ClientError V) (fresh : Option PipeClient)
      (p : Process)
      → Moves x s (flying f (answered r fresh) p)
      → Moves x s (idle (land x f r fresh p))
  unfolding land
  land-Moves s f r fresh p before =
      next (flying f (answered r fresh) p) _ before
        (landed zero (record f { stage = answered r fresh }) r fresh refl refl)

  module _ (arc : ℕ) (method : String) (params : V) (p : Process) (c : PipeClient)
      (h : pipe_of (get_elem? p.arcs arc) ≡ some c) where
    -- The flight, its first call, and the connection that follows if the pipe is stale.
    abbrev flight : Flight V
    flight = take_off arc true method params c p

    abbrev sid : ℕ
    sid = session_of (get_elem? p.arcs arc)

    abbrev out : Process
    out = set_pipe arc none p

    abbrev called : PipeClient → Process → Result ClientError V × Session
    called d q = call_value x method params (record { client = d; process = q })

    abbrev first : Result ClientError V × Session
    first = called c out

    abbrev dropped : Process
    dropped = drop_client first.1.client first.1.process

    take_off-Moves : Moves x (idle p) (flying flight (calling c) out)
    unfolding take_off
    take_off-Moves = next (idle p) _ start (taken arc true method params c h)

    live-Moves :
        is_stale first.0 ≡ false
        → Moves x (idle p) (idle (take_call_with_retry x method params arc p).1)
    unfolding advance land reconcile_state take_off
    live-Moves e =
        let step : advance x flight (calling c) out
            ≡ (answered first.0 (some first.1.client), first.1.process) =
          rw (e, advance) in
        let flown = advance-Moves (idle p) flight (calling c) _ out _ step take_off-Moves in
        let done = land-Moves (idle p) flight first.0 (some first.1.client) first.1.process flown in
        subst (λ q. Moves x (idle p) (idle q))
          (sym (ap (λ r. r.1) (take_call_with_retry-live x method params arc p c h e))) done

    -- Up to the end of the connection.
    stale-Moves :
        (r : Result ClientError PipeClient) (q : Process)
        → is_stale first.0 ≡ true
        → connect_and_handshake x sid dropped ≡ (r, q)
        → let (stage, t) = after_connection x (r, q) in Moves x (idle p) (flying flight stage t)
    unfolding advance take_off
    stale-Moves r q e k =
        let step : advance x flight (calling c) out ≡ (reconnecting, dropped) = rw (e, advance) in
        let flown = advance-Moves (idle p) flight (calling c) _ out _ step take_off-Moves in
        advance-Moves (idle p) flight reconnecting _ dropped _ (ap (after_connection x) k) flown

    retried-Moves :
        (fresh : PipeClient) (q : Process)
        → is_stale first.0 ≡ true
        → connect_and_handshake x sid dropped ≡ (ok fresh, q)
        → Moves x (idle p) (idle (take_call_with_retry x method params arc p).1)
    unfolding advance land reconcile_state take_off
    retried-Moves fresh q e k =
        let (r, s) = called fresh q in
        let flown =
          advance-Moves (idle p) flight (retrying fresh) (answered r (some s.client)) q s.process
            refl (stale-Moves (ok fresh) q e k) in
        let done = land-Moves (idle p) flight r (some s.client) s.process flown in
        subst (λ q. Moves x (idle p) (idle q))
          (sym (ap (λ r. r.1) (take_call_with_retry-retried x method params arc p c h fresh q e k)))
          done

    lost-Moves :
        (f : ClientError) (q : Process)
        → is_stale first.0 ≡ true
        → connect_and_handshake x sid dropped ≡ (err f, q)
        → Moves x (idle p) (idle (take_call_with_retry x method params arc p).1)
    unfolding advance land reconcile_state take_off
    lost-Moves f q e k =
        let done = land-Moves (idle p) flight (err f) none q (stale-Moves (err f) q e k) in
        subst (λ q. Moves x (idle p) (idle q))
          (sym (ap (λ r. r.1) (take_call_with_retry-lost x method params arc p c h f q e k))) done

    held-Moves : Moves x (idle p) (idle (take_call_with_retry x method params arc p).1)
    held-Moves = elim (Bool-cases (is_stale first.0)) [
      | inr e ↦ live-Moves e
      | inl e ↦ elim (Result-cases (connect_and_handshake x sid dropped).0) [
        | inl (fresh, k) ↦
            retried-Moves fresh _ e (ap (λ r. (r, (connect_and_handshake x sid dropped).1)) k)
        | inr (f, k) ↦ lost-Moves f _ e (ap (λ r. (r, (connect_and_handshake x sid dropped).1)) k)
      ]
    ]

  -- A call with its retry, taken as a whole, is a run of moves: its stages one after the other.
  pub take_call_with_retry-Moves :
      (arc : ℕ) (method : String) (params : V) (p : Process)
      → Moves x (idle p) (idle (take_call_with_retry x method params arc p).1)
  unfolding take_call_with_retry
  take_call_with_retry-Moves arc method params p =
      elim (Option-cases (pipe_of (get_elem? p.arcs arc))) [
        | inl e ↦ rw (e, take_call_with_retry) start
        | inr (c, h) ↦ held-Moves arc method params p c h
      ]
