-- ===== src/Retry.antt =====
-- `take_call_with_retry` of src/KeePassKeyWin.Provider/src/com/server.rs: one call on the shared
-- pipe, with one reconnection and one retry if the pipe turns out to be stale. An `Arc` is the index
-- of its allocation in the process. What other threads do during the wait of `sta_block_on` is not
-- part of the model: the pipe is out of the state then. Log lines are left out.
pub mod Frame
pub mod Replies
pub mod Ownership
use kee_pass_key_win.Prelude.{
  ℕ, Bool, true, false, Option, none, some, String, Result, ok, err, get_elem?,
}
use kee_pass_key_win.World.{Externals, PipeClient, Process, pipe_of, session_of, set_pipe}
use kee_pass_key_win.Ipc.ClientError.{ClientError}
use kee_pass_key_win.Ipc.Client.{Session, call_value}
use kee_pass_key_win.Ipc.Classify.{RpcErrorClass, stale, other, classify_rpc_error}
use kee_pass_key_win.Connection.{drop_client, connect_and_handshake, clear_shared_state}

abbrev is_stale_class : RpcErrorClass → Bool
is_stale_class stale = true
is_stale_class other = false

-- `matches!(&r1, Err(e) if classify_rpc_error(e) == RpcErrorClass::Stale)`
unfoldable pub is_stale : {V : Type 0} → Result ClientError V → Bool
unfolding classify_rpc_error
is_stale (ok v) = false
is_stale (err e) = is_stale_class (classify_rpc_error e)

-- What the future gives: the result, the pipe that is alive if there is one, and the process.
pub record CallOutcome (V : Type 0) : Type 0 where
  pub result : Result ClientError V
  pub fresh : Option PipeClient
  pub process : Process

module _ {V : Type 0} (x : Externals V) (method : String) (params : V) where
  abbrev with_session : Result ClientError V × Session → CallOutcome V
  with_session (r, s) = record { result = r; fresh = some s.client; process = s.process }

  -- After the reconnection: the retry, or the error of the connection.
  unfoldable pub retry : Result ClientError PipeClient × Process → CallOutcome V
  retry (err e, p) = record { result = err e; fresh = none; process = p }
  retry (ok fresh, p) =
      with_session (call_value x method params (record { client = fresh; process = p }))

  -- After the first call: nothing more, or the dead pipe is dropped and a new one is opened.
  unfoldable pub after_first : ℕ → Result ClientError V × Session → CallOutcome V
  unfolding is_stale drop_client retry
  after_first session_id (r1, s) = elim (is_stale r1) [
    | false ↦ with_session (r1, s)
    | true ↦ retry (connect_and_handshake x session_id (drop_client s.client s.process))
  ]

  -- The future that `sta_block_on` runs.
  unfoldable pub orchestrate : PipeClient → ℕ → Process → CallOutcome V
  unfolding after_first
  orchestrate pipe session_id p =
      after_first session_id (call_value x method params (record { client = pipe; process = p }))

  -- Reconciling the state with the outcome.
  unfoldable pub reconcile_state : ℕ → CallOutcome V → Process
  unfolding clear_shared_state
  reconcile_state arc o = elim o.fresh [
    | some c ↦ set_pipe arc (some c) o.process
    | none ↦ clear_shared_state o.process
  ]

  unfoldable pub take_call_with_retry : ℕ → Process → Option (Result ClientError V) × Process
  unfolding orchestrate reconcile_state
  take_call_with_retry arc p = elim (pipe_of (get_elem? p.arcs arc)) [
    | none ↦ (none, p)
    | some pipe ↦
        let o = orchestrate pipe (session_of (get_elem? p.arcs arc)) (set_pipe arc none p) in
        (some o.result, reconcile_state arc o)
  ]
