-- ===== src/Flight/Steps.antt =====
-- Every step of `Server` is a run of moves, so what holds however the threads
-- interleave holds of the steps too.
use kee_pass_key_win.Prelude.{ℕ, false, none, some, String, ◌≡◌, refl, get_elem?}
use kee_pass_key_win.World.{Externals, PipeClient, Process, pipe_of, set_pipe}
use kee_pass_key_win.World.Aside.{IsBeside, IsTidy, IsAside-IsBeside, IsUncounted-IsTidy}
use kee_pass_key_win.ComObject.Tidy.{cf_lock_server-IsTidy, release-IsTidy}
use kee_pass_key_win.Ipc.Client.{call_value}
use kee_pass_key_win.Retry.{reconcile_state}
use kee_pass_key_win.Server.Traced.{
  Traced, reconcile_vault_with_os-traced, make_credential-traced, get_assertion-traced,
  cancel_operation-traced, get_lock_status-traced,
}
use kee_pass_key_win.Server.{
  Step, activate, lock_server, released, reconciled, made, asserted, cancelled, asked,
}
use kee_pass_key_win.Server.Runs.{cf_lock_server-IsBeside, release-IsBeside}
use kee_pass_key_win.Flight.{
  System, calling, answered, take_off, advance, land, Moves, taken, aside, activated, start, next,
}
use kee_pass_key_win.Flight.Refinement.{
  idle, advance-Moves, land-Moves, Moves-trans, take_call_with_retry-Moves,
}

module _ {V : Type 0} (x : Externals V) where
  -- Steps that leave the pipe alone, before and after.
  after_beside :
      (s : System V) (p q : Process)
      → Moves x s (idle p)
      → IsBeside p q
      → IsTidy p q
      → Moves x s (idle q)
  after_beside s p q before b t = next (idle p) _ before (aside q b t)

  -- The background task's call: it takes off, calls once and lands.
  task-Moves :
      (arc : ℕ) (method : String) (params : V) (p : Process) (c : PipeClient)
      → pipe_of (get_elem? p.arcs arc) ≡ some c
      → let (r, t) =
          call_value x method params (record { client = c; process = set_pipe arc none p }) in
        Moves x (idle p) (idle (set_pipe arc (some t.client) t.process))
  unfolding advance land reconcile_state take_off
  task-Moves arc method params p c h =
      let f = take_off arc false method params c p in
      let out = set_pipe arc none p in
      let (r, t) = call_value x method params (record { client = c; process = out }) in
      let off = next (idle p) _ start (taken arc false method params c h) in
      land-Moves x (idle p) f r (some t.client) t.process
        (advance-Moves x (idle p) f (calling c) (answered r (some t.client)) out t.process refl off)

  traced : Traced x (λ p q. Moves x (idle p) (idle q))
  traced = record {
    along = λ {p} {q} {r} a b. Moves-trans x (idle p) (idle q) (idle r) a b;
    aside = λ {p} {q} a.
        after_beside (idle p) p q start (IsAside-IsBeside a) (IsUncounted-IsTidy a.refs);
    retried = λ method params arc p. take_call_with_retry-Moves x arc method params p;
    called = λ method params arc p c h. task-Moves arc method params p c h;
  }

  -- Each call of the server, and each run of the background task, is a run of moves.
  pub Step-Moves : (p q : Process) → Step x p q → Moves x (idle p) (idle q)
  Step-Moves p _ (activate f riid) = next (idle p) _ start (activated f riid)
  Step-Moves p _ (lock_server l) =
      after_beside (idle p) p _ start (cf_lock_server-IsBeside l p) (cf_lock_server-IsTidy l p)
  Step-Moves p _ (released o) =
      after_beside (idle p) p _ start (release-IsBeside o p) (release-IsTidy o p)
  Step-Moves p _ (reconciled arc) = reconcile_vault_with_os-traced x _ traced arc p
  Step-Moves p _ (made arc req) = make_credential-traced x _ traced arc req p
  Step-Moves p _ (asserted arc req) = get_assertion-traced x _ traced arc req p
  Step-Moves p _ (cancelled arc txn) = cancel_operation-traced x _ traced arc txn p
  Step-Moves p _ (asked arc) = get_lock_status-traced x _ traced arc p
