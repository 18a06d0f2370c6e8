-- ===== src/Flight.antt =====
-- The server as its threads see it. `sta_block_on` of
-- src/KeePassKeyWin.Provider/src/com/exe_server.rs waits for a call of the plugin with the pipe taken
-- out of the state, and Windows makes other calls meanwhile; the background task runs on a thread of
-- its own. A call is a flight: it takes the pipe, goes on by itself in stages, and lands. Stages are
-- those of `take_call_with_retry` of com/server.rs (a call of the plugin, the connection after a stale
-- pipe, the second call); whatever else happens falls between them.
pub mod Exclusive
pub mod Tidy
pub mod Lost
pub mod Exclusion
pub mod Refinement
pub mod Landing
pub mod Steps
use kee_pass_key_win.Prelude.{
  ℕ, zero, suc, Bool, true, false, Option, none, some, List, [], ◌∷◌, String, Result, ok, err, ◌≡◌,
  ◌&&◌, get_elem?, set, without, if◌then◌else◌,
}
use kee_pass_key_win.World.{Guid, Externals, PipeClient, Process, pipe_of, session_of, set_pipe}
use kee_pass_key_win.World.Aside.{IsBeside, IsTidy}
use kee_pass_key_win.Ipc.ClientError.{ClientError}
use kee_pass_key_win.Ipc.Client.{Session, call_value}
use kee_pass_key_win.Connection.{drop_client, connect_and_handshake}
use kee_pass_key_win.Retry.{is_stale, reconcile_state}
use kee_pass_key_win.ComObject.{ClassFactory, cf_create_instance}

-- Where a flight is: in its first call, without a pipe before it connects, in its second call, or
-- done, with the result and the pipe that is alive if there is one.
pub data Stage (V : Type 0) : Type 0 where
  calling : PipeClient → Stage V
  reconnecting : Stage V
  retrying : PipeClient → Stage V
  answered : Result ClientError V → Option PipeClient → Stage V

-- The background task does not retry.
pub record Flight (V : Type 0) : Type 0 where
  pub arc : ℕ
  pub session_id : ℕ
  pub retries : Bool
  pub method : String
  pub params : V
  pub stage : Stage V

pub record System (V : Type 0) : Type 0 where
  pub process : Process
  pub flights : List (Flight V)

-- The flight that begins with the pipe of `arc`.
unfoldable pub take_off : {V : Type 0} → ℕ → Bool → String → V → PipeClient → Process → Flight V
take_off arc retries method params c p = record {
  arc = arc;
  session_id = session_of (get_elem? p.arcs arc);
  retries = retries;
  method = method;
  params = params;
  stage = calling c;
}

module _ {V : Type 0} (x : Externals V) where
  -- After the first call: done, or the dead pipe is dropped.
  abbrev pub after_call : Bool → Result ClientError V × Session → Stage V × Process
  after_call retries (r, s) =
      if retries && is_stale r
      then (reconnecting, drop_client s.client s.process)
      else (answered r (some s.client), s.process)

  -- After the connection: a second call, or done without a pipe.
  abbrev pub after_connection : Result ClientError PipeClient × Process → Stage V × Process
  after_connection (ok fresh, p) = (retrying fresh, p)
  after_connection (err e, p) = (answered (err e) none, p)

  abbrev after_retry : Result ClientError V × Session → Stage V × Process
  after_retry (r, s) = (answered r (some s.client), s.process)

  -- The next stage of a flight.
  unfoldable pub advance : Flight V → Stage V → Process → Stage V × Process
  unfolding drop_client
  advance f (calling c) p =
      after_call f.retries (call_value x f.method f.params (record { client = c; process = p }))
  advance f reconnecting p = after_connection (connect_and_handshake x f.session_id p)
  advance f (retrying c) p =
      after_retry (call_value x f.method f.params (record { client = c; process = p }))
  advance f (answered r fresh) p = (answered r fresh, p)

  -- What a flight leaves in the state when it lands.
  unfoldable pub land : Flight V → Result ClientError V → Option PipeClient → Process → Process
  unfolding reconcile_state
  land f r fresh p =
      reconcile_state x f.method f.params f.arc (record { result = r; fresh = fresh; process = p })

  -- One move of the system. Steps that do not touch the pipe and leave COM as it was, such as a
  -- prompt, are moves to any process that they could leave.
  pub data Move (s : System V) : System V → Type 0 where
    taken :
        (arc : ℕ) (retries : Bool) (method : String) (params : V) (c : PipeClient)
        → pipe_of (get_elem? s.process.arcs arc) ≡ some c
        → Move s (record {
          process = set_pipe arc none s.process;
          flights = take_off arc retries method params c s.process ∷ s.flights;
        })
    advanced :
        (i : ℕ) (f : Flight V)
        → get_elem? s.flights i ≡ some f
        → Move s (record {
          process = (advance f f.stage s.process).1;
          flights = set s.flights i (record f { stage = (advance f f.stage s.process).0 });
        })
    landed :
        (i : ℕ) (f : Flight V) (r : Result ClientError V) (fresh : Option PipeClient)
        → get_elem? s.flights i ≡ some f
        → f.stage ≡ answered r fresh
        → Move s (record { process = land f r fresh s.process; flights = without i s.flights })
    aside :
        (q : Process)
        → IsBeside s.process q
        → IsTidy s.process q
        → Move s (record s { process = q })
    activated :
        (f : ClassFactory) (riid : Guid)
        → Move s (record s { process = (cf_create_instance x f riid s.process).1 })

  pub data Moves (s : System V) : System V → Type 0 where
    start : Moves s s
    next : (t u : System V) → Moves s t → Move t u → Moves s u
