-- ===== src/Flight/Tidy.antt =====
-- The threads leave COM as it was, and revoke no class.
use kee_pass_key_win.Prelude.{Option, Result, ok, err, refl, arith, Bool}
use kee_pass_key_win.World.{Guid, Externals, PipeClient, Process}
use kee_pass_key_win.World.Aside.{IsTidy, IsTidy-trans, IsUncounted-IsTidy}
use kee_pass_key_win.Ipc.ClientError.{ClientError}
use kee_pass_key_win.Ipc.Classify.{clear_slot}
use kee_pass_key_win.Ipc.Client.{Session, call_value}
use kee_pass_key_win.Connection.{connect_and_handshake, clear_shared_state, drop_client}
use kee_pass_key_win.Connection.Frame.{connect_and_handshake-frame}
use kee_pass_key_win.Retry.Frame.{call_value-OneCall}
use kee_pass_key_win.ComObject.{ClassFactory, choose_state, cf_create_instance}
use kee_pass_key_win.ComObject.Tidy.{hand_over-IsTidy}
use kee_pass_key_win.Server.References.{choose_state-Uncounted}
use kee_pass_key_win.Flight.{
  Stage, calling, reconnecting, retrying, answered, Flight, System, after_call, after_connection,
  advance, land, Move, taken, advanced, landed, aside, activated, Moves, start, next,
}

IsTidy-refl : (p : Process) → IsTidy p p
IsTidy-refl p = record { entered = refl; left = refl; revoked = refl }

module _ {V : Type 0} (x : Externals V) where
  pub cf_create_instance-IsTidy :
      (f : ClassFactory) (riid : Guid) (p : Process) → IsTidy p (cf_create_instance x f riid p).1
  unfolding cf_create_instance
  cf_create_instance-IsTidy f riid p =
      let (c, q) = choose_state x f.session_id p in
      IsTidy-trans (IsUncounted-IsTidy (choose_state-Uncounted x f.session_id p))
        (hand_over-IsTidy riid c q)

  after_call-IsTidy :
      (p : Process) (retries : Bool) (r : Result ClientError V) (s : Session)
      → IsTidy p s.process
      → IsTidy p (after_call x retries (r, s)).1
  unfolding drop_client
  after_call-IsTidy p retries r s t = ground (arith, t)

  after_connection-IsTidy :
      (p : Process) (r : Result ClientError PipeClient × Process)
      → IsTidy p r.1
      → IsTidy p (after_connection x r).1
  after_connection-IsTidy p (ok c, q) t = t
  after_connection-IsTidy p (err e, q) t = t

  advance-IsTidy : (f : Flight V) (stage : Stage V) (p : Process) → IsTidy p (advance x f stage p).1
  unfolding advance
  advance-IsTidy f (calling c) p =
      let s : Session = record { client = c; process = p } in
      let (r, t) = call_value x f.method f.params s in
      after_call-IsTidy p f.retries r t
        (IsUncounted-IsTidy (call_value-OneCall x f.method f.params s).refs)
  advance-IsTidy f reconnecting p =
      let (b, k) = connect_and_handshake-frame x f.session_id p in
      after_connection-IsTidy p (connect_and_handshake x f.session_id p) (IsUncounted-IsTidy k.refs)
  advance-IsTidy f (retrying c) p =
      let s : Session = record { client = c; process = p } in
      IsUncounted-IsTidy (call_value-OneCall x f.method f.params s).refs
  advance-IsTidy f (answered r fresh) p = IsTidy-refl p

  land-IsTidy :
      (f : Flight V) (r : Result ClientError V) (fresh : Option PipeClient) (p : Process)
      → IsTidy p (land x f r fresh p)
  unfolding land clear_shared_state clear_slot
  land-IsTidy f r fresh p = ground arith

  Move-IsTidy : (s t : System V) → Move x s t → IsTidy s.process t.process
  Move-IsTidy s _ (taken arc retries method params c h) = record {
    entered = refl;
    left = refl;
    revoked = refl;
  }
  Move-IsTidy s _ (advanced i f h) = advance-IsTidy f f.stage s.process
  Move-IsTidy s _ (landed i f r fresh h e) = land-IsTidy f r fresh s.process
  Move-IsTidy s _ (aside q b t) = t
  Move-IsTidy s _ (activated f riid) = cf_create_instance-IsTidy f riid s.process

  pub Moves-IsTidy : (s t : System V) → Moves x s t → IsTidy s.process t.process
  Moves-IsTidy s _ start = IsTidy-refl s.process
  Moves-IsTidy s _ (next t u before m) = IsTidy-trans (Moves-IsTidy s t before) (Move-IsTidy t u m)
