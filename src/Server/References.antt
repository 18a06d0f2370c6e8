-- ===== src/Server/References.antt =====
-- The methods of an object, the background task and the choice of a state neither take nor give back
-- a reference to the server process.
use kee_pass_key_win.Prelude.{ℕ, none, String, arith, Option-cases, inl, inr, get_elem?}
use kee_pass_key_win.World.{Externals, Process}
use kee_pass_key_win.World.{pipe_of, session_of, set_pipe}
use kee_pass_key_win.World.Counts.{IsUncounted, IsUncounted-trans}
use kee_pass_key_win.Connection.{clear_shared_state}
use kee_pass_key_win.Ipc.Classify.{clear_slot}
use kee_pass_key_win.Connection.Frame.{connect_and_handshake-frame}
use kee_pass_key_win.Retry.{CallOutcome, reconcile_state, take_call_with_retry}
use kee_pass_key_win.Retry.Frame.{IsRetry, call_value-OneCall, orchestrate-IsRetry}
use kee_pass_key_win.ComObject.{allocate_state, choose_state}
use kee_pass_key_win.Server.Traced.{Traced, task_session}

-- What was called between two processes.
abbrev pub Uncounted : Process → Process → Type 0
Uncounted p q = IsUncounted p.history q.history

module _ {V : Type 0} (x : Externals V) where
  -- What a call leaves in the state is no call.
  reconcile_state-Uncounted :
      (method : String) (params : V) (arc : ℕ) (p : Process) (o : CallOutcome V)
      → IsRetry p o
      → Uncounted p (reconcile_state x method params arc o)
  unfolding reconcile_state clear_shared_state clear_slot
  reconcile_state-Uncounted method params arc p o k = ground (arith, k.refs)

  take_call_with_retry-Uncounted :
      (method : String) (params : V) (arc : ℕ) (p : Process)
      → Uncounted p (take_call_with_retry x method params arc p).1
  unfolding take_call_with_retry
  take_call_with_retry-Uncounted method params arc p =
      elim (Option-cases (pipe_of (get_elem? p.arcs arc))) [
        | inl e ↦ rw (e, take_call_with_retry) (ground arith)
        | inr (c, h) ↦
            let q = set_pipe arc none p in
            let k = orchestrate-IsRetry x method params c (session_of (get_elem? p.arcs arc)) q in
            rw (h, take_call_with_retry) (reconcile_state-Uncounted method params arc q _ k)
      ]

  pub uncounted : Traced x Uncounted
  uncounted = record {
    along = λ a b. IsUncounted-trans a b;
    aside = λ a. a.refs;
    retried = take_call_with_retry-Uncounted;
    called =
        λ method params arc p c h. (call_value-OneCall x method params (task_session arc c p)).refs;
  }

  pub choose_state-Uncounted :
      (session_id : ℕ) (p : Process) → Uncounted p (choose_state x session_id p).1
  unfolding choose_state allocate_state
  choose_state-Uncounted session_id p =
      let (b, k) = connect_and_handshake-frame x session_id p in ground (arith, k.refs)
