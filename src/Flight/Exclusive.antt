-- ===== src/Flight/Exclusive.antt =====
-- Without a flight the pipe is owned as between the calls, with one no state has a pipe, and there never
-- are two: every move keeps this.
use kee_pass_key_win.Prelude.{
  ℕ, zero, suc, ◌≤◌, Bool, true, false, Option, none, some, List, [], ◌∷◌, String, Result, ok, err,
  ◌≡◌, sym, ap, refl, subst, arith, get_elem?, set, Bool-cases, inl, inr,
}
use kee_pass_key_win.World.{Guid, Externals, PipeClient, Process, pipe_of, set_pipe}
use kee_pass_key_win.World.Aside.{IsBeside}
use kee_pass_key_win.Ipc.ClientError.{ClientError}
use kee_pass_key_win.Ipc.Client.{Session, call_value}
use kee_pass_key_win.Connection.{drop_client, connect_and_handshake}
use kee_pass_key_win.Connection.Frame.{Balance, IsConnecting, connect_and_handshake-frame}
use kee_pass_key_win.Retry.{is_stale}
use kee_pass_key_win.Retry.Frame.{call_value-OneCall}
use kee_pass_key_win.Retry.Ownership.{
  IsOwned, IsTaken, IsBeside-IsOwned, IsTaken-step, set_pipe-IsTaken, set_pipe-IsOwned,
  clear_shared_state-IsOwned, OneCall-IsTaken,
}
use kee_pass_key_win.ComObject.{ClassFactory, cf_create_instance, choose_state}
use kee_pass_key_win.ComObject.Sharing.{
  cf_create_instance-IsOwned, choose_state-shared, hand_over-IsBeside,
}
use kee_pass_key_win.Flight.{
  Stage, calling, reconnecting, retrying, answered, Flight, System, take_off, without, after_call,
  after_connection, advance, land, Move, taken, advanced, landed, aside, activated, Moves, start,
  next,
}

-- The pipes that a flight has open.
abbrev pub carried : {V : Type 0} → Stage V → ℕ
carried (calling c) = 1
carried reconnecting = 0
carried (retrying c) = 1
carried (answered r none) = 0
carried (answered r (some c)) = 1

-- Without a flight the pipe is owned as between the calls; with one, no state has a pipe; there
-- never are two.
abbrev pub Exclusive : {V : Type 0} → List (Flight V) → Process → Type 0
Exclusive [] p = IsOwned p
Exclusive (f ∷ []) p = IsTaken f.arc (carried f.stage) p
Exclusive (f ∷ g ∷ fs) p = ⊥

IsBeside-IsTaken :
    (arc n : ℕ) (p q : Process) → n ≤ 1 → IsBeside p q → IsTaken arc n p → IsTaken arc n q
IsBeside-IsTaken arc n p q small a t =
    IsTaken-step t a.arcs a.shared (omega (arith, t.balance, a.quiet.opened, a.quiet.closed))
      (a.quiet.one (omega (arith, t.balance, small)) t.one)

carried-le : {V : Type 0} (s : Stage V) → carried s ≤ 1
carried-le (calling c) = omega arith
carried-le reconnecting = omega arith
carried-le (retrying c) = omega arith
carried-le (answered r none) = omega arith
carried-le (answered r (some c)) = omega arith

module _ {V : Type 0} (x : Externals V) where
  -- A flight without a pipe that connects.
  after_connection-IsTaken :
      (arc : ℕ) (p : Process) (r : Result ClientError PipeClient) (q : Process)
      → IsTaken arc 0 p
      → Balance p (r, q)
      → IsConnecting p q
      → let (s, t) = after_connection x (r, q) in IsTaken arc (carried s) t
  after_connection-IsTaken arc p (ok f) q t b k =
      IsTaken-step t (ap (λ (q : Process). q.arcs) k.kept)
        (ap (λ (q : Process). q.shared_state) k.kept) (omega (arith, b, t.balance))
        (k.one (omega (arith, t.balance)) t.one)
  after_connection-IsTaken arc p (err e) q t b k =
      IsTaken-step t (ap (λ (q : Process). q.arcs) k.kept)
        (ap (λ (q : Process). q.shared_state) k.kept) (omega (arith, b, t.balance))
        (k.one (omega (arith, t.balance)) t.one)

  drop_client-IsTaken :
      (arc : ℕ) (c : PipeClient) (p : Process) → IsTaken arc 1 p → IsTaken arc 0 (drop_client c p)
  unfolding drop_client
  drop_client-IsTaken arc c p t =
      IsTaken-step t refl refl (omega (arith, t.balance)) (omega (arith, t.balance), t.one)

  after_call-IsTaken :
      (arc : ℕ) (retries : Bool) (r : Result ClientError V) (s : Session)
      → IsTaken arc 1 s.process
      → let (stage, q) = after_call x retries (r, s) in IsTaken arc (carried stage) q
  after_call-IsTaken arc false r s t = t
  after_call-IsTaken arc true r s t = elim (Bool-cases (is_stale r)) [
    | inl e ↦ rw e (drop_client-IsTaken arc s.client s.process t)
    | inr e ↦ rw e t
  ]

  advance-IsTaken :
      (f : Flight V) (stage : Stage V) (p : Process)
      → IsTaken f.arc (carried stage) p
      → let (s, q) = advance x f stage p in IsTaken f.arc (carried s) q
  unfolding advance
  advance-IsTaken f (calling c) p t =
      let s : Session = record { client = c; process = p } in
      let (r, u) = call_value x f.method f.params s in
      after_call-IsTaken f.arc f.retries r u
        (OneCall-IsTaken f.arc s u (call_value-OneCall x f.method f.params s) t)
  advance-IsTaken f reconnecting p t =
      let (r, q) = connect_and_handshake x f.session_id p in
      let (b, k) = connect_and_handshake-frame x f.session_id p in
      after_connection-IsTaken f.arc p r q t b k
  advance-IsTaken f (retrying c) p t =
      let s : Session = record { client = c; process = p } in
      let (r, u) = call_value x f.method f.params s in
      OneCall-IsTaken f.arc s u (call_value-OneCall x f.method f.params s) t
  advance-IsTaken f (answered r fresh) p t = t

  land-IsOwned :
      (f : Flight V) (r : Result ClientError V) (fresh : Option PipeClient) (p : Process)
      → IsTaken f.arc (carried (answered r fresh)) p
      → IsOwned (land x f r fresh p)
  unfolding land
  land-IsOwned f r none p t = clear_shared_state-IsOwned f.arc p t
  land-IsOwned f r (some c) p t = set_pipe-IsOwned f.arc c p t

  -- An activation during a flight shares the state of the flight, and opens no pipe.
  cf_create_instance-IsTaken :
      (arc n : ℕ) (f : ClassFactory) (riid : Guid) (p : Process)
      → n ≤ 1
      → IsTaken arc n p
      → IsTaken arc n (cf_create_instance x f riid p).1
  unfolding cf_create_instance
  cf_create_instance-IsTaken arc n f riid p small t =
      let (c, q) = choose_state x f.session_id p in
      let same : q ≡ p = ap (λ r. r.1) (choose_state-shared x f.session_id p arc t.shared) in
      IsBeside-IsTaken arc n q _ small (hand_over-IsBeside riid c q)
        (subst (IsTaken arc n) (sym same) t)

  taken-Exclusive :
      (fs : List (Flight V)) (p : Process) (arc : ℕ) (retries : Bool) (method : String) (params : V)
      (c : PipeClient)
      → pipe_of (get_elem? p.arcs arc) ≡ some c
      → Exclusive fs p
      → Exclusive (take_off arc retries method params c p ∷ fs) (set_pipe arc none p)
  unfolding take_off
  taken-Exclusive [] p arc retries method params c h w = set_pipe-IsTaken arc p c w h
  taken-Exclusive (f ∷ []) p arc retries method params c h t = absurd (t.empty arc c h)
  taken-Exclusive (f ∷ g ∷ fs) p arc retries method params c h t = absurd t

  advanced-Exclusive :
      (fs : List (Flight V)) (p : Process) (i : ℕ) (f : Flight V)
      → get_elem? fs i ≡ some f
      → Exclusive fs p
      → let (stage, q) = advance x f f.stage p in
        Exclusive (set fs i (record f { stage = stage })) q
  advanced-Exclusive [] p i f h w = ground (arith, h)
  advanced-Exclusive (g ∷ []) p (suc i) f h t = ground (arith, h)
  advanced-Exclusive (g ∷ []) p zero f h t =
      let same : g ≡ f = ground (arith, h) in
      advance-IsTaken f f.stage p
        (subst (λ (f : Flight V). IsTaken f.arc (carried f.stage) p) same t)
  advanced-Exclusive (g ∷ k ∷ fs) p i f h t = absurd t

  landed-Exclusive :
      (fs : List (Flight V)) (p : Process) (i : ℕ) (f : Flight V) (r : Result ClientError V)
      (fresh : Option PipeClient)
      → get_elem? fs i ≡ some f
      → f.stage ≡ answered r fresh
      → Exclusive fs p
      → Exclusive (without i fs) (land x f r fresh p)
  landed-Exclusive [] p i f r fresh h e w = ground (arith, h)
  landed-Exclusive (g ∷ []) p (suc i) f r fresh h e t = ground (arith, h)
  landed-Exclusive (g ∷ []) p zero f r fresh h e t =
      let same : g ≡ f = ground (arith, h) in
      let t' = subst (λ (f : Flight V). IsTaken f.arc (carried f.stage) p) same t in
      land-IsOwned f r fresh p (subst (λ (s : Stage V). IsTaken f.arc (carried s) p) e t')
  landed-Exclusive (g ∷ k ∷ fs) p i f r fresh h e t = absurd t

  pub aside-Exclusive :
      (fs : List (Flight V)) (p q : Process) → IsBeside p q → Exclusive fs p → Exclusive fs q
  aside-Exclusive [] p q a w = IsBeside-IsOwned p q a w
  aside-Exclusive (f ∷ []) p q a t = IsBeside-IsTaken f.arc _ p q (carried-le f.stage) a t
  aside-Exclusive (f ∷ g ∷ fs) p q a t = t

  activated-Exclusive :
      (fs : List (Flight V)) (p : Process) (f : ClassFactory) (riid : Guid)
      → Exclusive fs p
      → Exclusive fs (cf_create_instance x f riid p).1
  activated-Exclusive [] p f riid w = cf_create_instance-IsOwned x f riid p w
  activated-Exclusive (g ∷ []) p f riid t =
      cf_create_instance-IsTaken g.arc _ f riid p (carried-le g.stage) t
  activated-Exclusive (g ∷ h ∷ fs) p f riid t = t

  pub Move-Exclusive :
      (s t : System V) → Move x s t → Exclusive s.flights s.process → Exclusive t.flights t.process
  Move-Exclusive s _ (taken arc retries method params c h) w =
      taken-Exclusive s.flights s.process arc retries method params c h w
  Move-Exclusive s _ (advanced i f h) w = advanced-Exclusive s.flights s.process i f h w
  Move-Exclusive s _ (landed i f r fresh h e) w =
      landed-Exclusive s.flights s.process i f r fresh h e w
  Move-Exclusive s _ (aside q a t) w = aside-Exclusive s.flights s.process q a w
  Move-Exclusive s _ (activated f riid) w = activated-Exclusive s.flights s.process f riid w

  pub Moves-Exclusive :
      (s t : System V) → Moves x s t → Exclusive s.flights s.process → Exclusive t.flights t.process
  Moves-Exclusive s _ start w = w
  Moves-Exclusive s _ (next t u before m) w = Move-Exclusive t u m (Moves-Exclusive s t before w)
