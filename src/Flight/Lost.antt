-- ===== src/Flight/Lost.antt =====
-- A state whose pipe was lost, with calls in flight: nothing puts a pipe into it again.
use kee_pass_key_win.Prelude.{
  ℕ, zero, suc, ◌<◌, Bool, Option, none, some, List, [], ◌∷◌, String, Result, ok, err, ◌≡◌, ◌≢◌,
  ◌∙◌, ap, sym, refl, subst, arith, get_elem?, set, length, length-set, get_elem?-set_ne,
}
use kee_pass_key_win.World.{
  AuthenticatorState, Externals, Guid, PipeClient, Process, pipe_of, set_pipe,
}
use kee_pass_key_win.Hresult.{s_ok}
use kee_pass_key_win.Ipc.ClientError.{ClientError}
use kee_pass_key_win.Ipc.Client.{Session, call_value}
use kee_pass_key_win.Ipc.Classify.{clear_slot}
use kee_pass_key_win.Connection.{clear_shared_state, connect_and_handshake, drop_client}
use kee_pass_key_win.Connection.Frame.{connect_and_handshake-frame}
use kee_pass_key_win.Retry.{reconcile_state}
use kee_pass_key_win.Retry.Frame.{call_value-OneCall}
use kee_pass_key_win.Authenticator.{
  OperationRequest, cancel_operation, dispatch_operation, get_lock_status, locked,
}
use kee_pass_key_win.Authenticator.Verified.{dispatch_operation-Written}
use kee_pass_key_win.Server.Lost.{Fruitless, Written-none, dispatch_operation-Fruitless, lost_call}
use kee_pass_key_win.Server.Spares.{cf_create_instance-Spares}
use kee_pass_key_win.Flight.{
  Stage, calling, reconnecting, retrying, answered, Flight, System, take_off, without, after_call,
  after_connection, advance, land, Move, taken, advanced, landed, aside, activated, Moves, start,
  next,
}

-- No call for the state of `arc` is in flight.
abbrev pub Away : {V : Type 0} → ℕ → List (Flight V) → Type 0
Away arc [] = Unit
Away arc (f ∷ fs) = (f.arc ≢ arc) × Away arc fs

-- The state of `arc` was allocated, has no pipe, and no call is in flight that could bring one back.
abbrev pub IsLost : {V : Type 0} → ℕ → System V → Type 0
IsLost arc s =
    (arc < length s.process.arcs)
    × (pipe_of (get_elem? s.process.arcs arc) ≡ none)
    × Away arc s.flights

module _ (arc : ℕ) where
  -- The state is there without a pipe: so it stays when no state is written, or another one.
  Bare : Process → Type 0
  Bare p = (arc < length p.arcs) × (pipe_of (get_elem? p.arcs arc) ≡ none)

  Bare-same : (p q : Process) → q.arcs ≡ p.arcs → Bare p → Bare q
  unfolding Bare
  Bare-same p q e b =
      subst
        (λ (ss : List AuthenticatorState). (arc < length ss) × (pipe_of (get_elem? ss arc) ≡ none))
        (sym e) b

  Bare-set :
      (p : Process) (i : ℕ) (c : Option PipeClient) → i ≢ arc → Bare p → Bare (set_pipe i c p)
  unfolding Bare
  Bare-set p i c ne b = (
    omega (arith, b.0, length-set p.arcs i _),
    ap pipe_of (get_elem?-set_ne p.arcs i arc _ ne) ∙ b.1,
  )

module _ {V : Type 0} (arc : ℕ) where
  Away-set :
      (fs : List (Flight V)) (i : ℕ) (f : Flight V) (stage : Stage V)
      → get_elem? fs i ≡ some f
      → Away arc fs
      → Away arc (set fs i (record f { stage = stage }))
  Away-set [] i f stage e a = a
  Away-set (g ∷ fs) zero f stage e a =
      let same : g ≡ f = ground (arith, e) in (subst (λ (f : Flight V). f.arc ≢ arc) same a.0, a.1)
  Away-set (g ∷ fs) (suc i) f stage e a = (a.0, Away-set fs i f stage (ground (arith, e)) a.1)

  Away-without : (fs : List (Flight V)) (i : ℕ) → Away arc fs → Away arc (without i fs)
  Away-without [] zero a = a
  Away-without [] (suc i) a = a
  Away-without (g ∷ fs) zero a = a.1
  Away-without (g ∷ fs) (suc i) a = (a.0, Away-without fs i a.1)

  Away-at :
      (fs : List (Flight V)) (i : ℕ) (f : Flight V)
      → get_elem? fs i ≡ some f
      → Away arc fs
      → f.arc ≢ arc
  Away-at [] i f e a = ground (arith, e)
  Away-at (g ∷ fs) zero f e a =
      let same : g ≡ f = ground (arith, e) in subst (λ (f : Flight V). f.arc ≢ arc) same a.0
  Away-at (g ∷ fs) (suc i) f e a = Away-at fs i f (ground (arith, e)) a.1

  module _ (x : Externals V) where
    after_call-arcs :
        (retries : Bool) (r : Result ClientError V) (s : Session)
        → (after_call x retries (r, s)).1.arcs ≡ s.process.arcs
    unfolding drop_client
    after_call-arcs retries r s = ground arith

    after_connection-arcs :
        (r : Result ClientError PipeClient) (p : Process)
        → (after_connection x (r, p)).1.arcs ≡ p.arcs
    after_connection-arcs (ok c) p = refl
    after_connection-arcs (err e) p = refl

    -- No stage of a flight touches the states.
    advance-arcs :
        (f : Flight V) (stage : Stage V) (p : Process) → (advance x f stage p).1.arcs ≡ p.arcs
    unfolding advance
    advance-arcs f (calling c) p =
        let s : Session = record { client = c; process = p } in
        let (r, t) = call_value x f.method f.params s in
        after_call-arcs f.retries r t
        ∙ ap (λ (q : Process). q.arcs) (call_value-OneCall x f.method f.params s).kept
    advance-arcs f reconnecting p =
        let (r, q) = connect_and_handshake x f.session_id p in
        after_connection-arcs r q
        ∙ ap (λ (q : Process). q.arcs) (connect_and_handshake-frame x f.session_id p).1.kept
    advance-arcs f (retrying c) p =
        let s : Session = record { client = c; process = p } in
        ap (λ (q : Process). q.arcs) (call_value-OneCall x f.method f.params s).kept
    advance-arcs f (answered r fresh) p = refl

    land-Bare :
        (f : Flight V) (r : Result ClientError V) (fresh : Option PipeClient) (p : Process)
        → f.arc ≢ arc
        → Bare arc p
        → Bare arc (land x f r fresh p)
    unfolding land reconcile_state clear_shared_state clear_slot
    land-Bare f r none p ne b = Bare-same arc p _ refl b
    land-Bare f r (some c) p ne b = Bare-set arc p f.arc (some c) ne b

    Move-IsLost : (s t : System V) → Move x s t → IsLost arc s → IsLost arc t
    unfolding Bare take_off
    Move-IsLost s _ (taken a retries method params c h) (n, e, away) =
        let ne : a ≢ arc = λ same.
          ground (arith, e, subst (λ j. pipe_of (get_elem? s.process.arcs j) ≡ some c) same h) in
        let b = Bare-set arc s.process a none ne (n, e) in (b.0, b.1, (ne, away))
    Move-IsLost s _ (advanced i f h) (n, e, away) =
        let b =
          Bare-same arc s.process (advance x f f.stage s.process).1
            (advance-arcs f f.stage s.process) (n, e) in
        (b.0, b.1, Away-set s.flights i f _ h away)
    Move-IsLost s _ (landed i f r fresh h k) (n, e, away) =
        let b = land-Bare f r fresh s.process (Away-at s.flights i f h away) (n, e) in
        (b.0, b.1, Away-without s.flights i away)
    Move-IsLost s _ (aside q a t) (n, e, away) =
        let b = Bare-same arc s.process q a.arcs (n, e) in (b.0, b.1, away)
    Move-IsLost s _ (activated f riid) (n, e, away) =
        let k = cf_create_instance-Spares x f riid s.process in
        (omega (arith, n, k.grown), k.empty arc n e, away)

    Moves-IsLost : (s t : System V) → Moves x s t → IsLost arc s → IsLost arc t
    Moves-IsLost s _ start h = h
    Moves-IsLost s _ (next t u before m) h = Move-IsLost t u m (Moves-IsLost s t before h)

module _ {V : Type 0} (x : Externals V) where
  -- Once a state has no pipe and no call for it is in flight that could bring one back: however
  -- calls, activations and background tasks interleave from there on, an object that holds this state
  -- answers that the vault is locked and does not tell the plugin of a cancellation; and its operations
  -- give no response, not S_OK, and send nothing to the plugin.
  pub Moves-lost :
      (s t : System V)
      → Moves x s t
      → (arc : ℕ) → IsLost arc s
      → (req : OperationRequest) (method : String) (txn : Guid)
      → (get_lock_status x arc t.process ≡ ((s_ok, some locked), t.process))
        × (cancel_operation x arc txn t.process ≡ (s_ok, t.process))
        × Fruitless t.process (dispatch_operation x arc req method t.process)
        × ((dispatch_operation x arc req method t.process).0.0 ≢ s_ok)
  unfolding get_lock_status cancel_operation
  Moves-lost s t run arc h req method txn =
      let q = t.process in
      let (n, gone, away) = Moves-IsLost arc x s t run h in
      let fruitless = dispatch_operation-Fruitless x arc req method q gone in
      let (answer, after) = dispatch_operation x arc req method q in
      (
        rw (lost_call x arc "keepasskeywin.getLockStatus" (x.object []) q gone) refl,
        rw (lost_call x arc "keepasskeywin.cancelOperation" _ q gone) refl,
        fruitless,
        Written-none x answer after fruitless.0 (dispatch_operation-Written x arc req method q),
      )
