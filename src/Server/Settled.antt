-- ===== src/Server/Settled.antt =====
-- The buffers of user verification over the whole life of the server.
use kee_pass_key_win.Prelude.{ℕ, none, String, ◌≡◌, arith, Option-cases, inl, inr, get_elem?, refl}
use kee_pass_key_win.World.{Guid, Externals, Process, pipe_of, session_of, set_pipe, fresh_process}
use kee_pass_key_win.World.Counts.{IsSettled, buffers_out, buffers_freed}
use kee_pass_key_win.Connection.{clear_shared_state}
use kee_pass_key_win.Ipc.Classify.{clear_slot}
use kee_pass_key_win.Connection.Frame.{connect_and_handshake-frame}
use kee_pass_key_win.Retry.{CallOutcome, reconcile_state, take_call_with_retry}
use kee_pass_key_win.Retry.Frame.{IsRetry, call_value-OneCall, orchestrate-IsRetry}
use kee_pass_key_win.ComObject.{
  Chosen, ClassFactory, ComObject, allocate_state, choose_state, hand_over, cf_create_instance,
  cf_lock_server, release,
}
use kee_pass_key_win.Server.Traced.{
  Traced, task_session, reconcile_vault_with_os-traced, make_credential-traced,
  get_assertion-traced, cancel_operation-traced, get_lock_status-traced,
}
use kee_pass_key_win.Server.{
  Step, activate, lock_server, released, reconciled, made, asserted, cancelled, asked, Run, start,
  next,
}

abbrev Settled : Process → Process → Type 0
Settled p q = IsSettled p.history q.history

hand_over-Settled : (riid : Guid) (c : Chosen) (p : Process) → Settled p (hand_over riid (c, p)).1
unfolding hand_over
hand_over-Settled riid c p = ground arith

cf_lock_server-Settled : (lock : ℕ) (p : Process) → Settled p (cf_lock_server lock p).1
unfolding cf_lock_server
cf_lock_server-Settled lock p = ground arith

release-Settled : (o : ComObject) (p : Process) → Settled p (release o p).1
unfolding release
release-Settled o p = ground arith

module _ {V : Type 0} (x : Externals V) where
  reconcile_state-Settled :
      (method : String) (params : V) (arc : ℕ) (p : Process) (o : CallOutcome V)
      → IsRetry p o
      → Settled p (reconcile_state x method params arc o)
  unfolding reconcile_state clear_shared_state clear_slot
  reconcile_state-Settled method params arc p o k = ground (arith, k.settled)

  take_call_with_retry-Settled :
      (method : String) (params : V) (arc : ℕ) (p : Process)
      → Settled p (take_call_with_retry x method params arc p).1
  unfolding take_call_with_retry
  take_call_with_retry-Settled method params arc p =
      elim (Option-cases (pipe_of (get_elem? p.arcs arc))) [
        | inl e ↦ rw (e, take_call_with_retry) (ground arith)
        | inr (c, h) ↦
            let q = set_pipe arc none p in
            let k = orchestrate-IsRetry x method params c (session_of (get_elem? p.arcs arc)) q in
            rw (h, take_call_with_retry) (reconcile_state-Settled method params arc q _ k)
      ]

  settled : Traced x Settled
  settled = record {
    along = λ a b e. b (a e);
    aside = λ a. a.settled;
    retried = take_call_with_retry-Settled;
    called = λ method params arc p c h.
        (call_value-OneCall x method params (task_session arc c p)).settled;
  }

  choose_state-Settled : (session_id : ℕ) (p : Process) → Settled p (choose_state x session_id p).1
  unfolding choose_state allocate_state
  choose_state-Settled session_id p =
      let (b, k) = connect_and_handshake-frame x session_id p in ground (arith, k.settled)

  cf_create_instance-Settled :
      (f : ClassFactory) (riid : Guid) (p : Process) → Settled p (cf_create_instance x f riid p).1
  unfolding cf_create_instance
  cf_create_instance-Settled f riid p =
      let (c, q) = choose_state x f.session_id p in
      λ e. hand_over-Settled riid c q (choose_state-Settled f.session_id p e)

  Step-Settled : (p q : Process) → Step x p q → Settled p q
  Step-Settled p _ (activate f riid) = cf_create_instance-Settled f riid p
  Step-Settled p _ (lock_server l) = cf_lock_server-Settled l p
  Step-Settled p _ (released o) = release-Settled o p
  Step-Settled p _ (reconciled arc) = reconcile_vault_with_os-traced x Settled settled arc p
  Step-Settled p _ (made arc req) = make_credential-traced x Settled settled arc req p
  Step-Settled p _ (asserted arc req) = get_assertion-traced x Settled settled arc req p
  Step-Settled p _ (cancelled arc txn) = cancel_operation-traced x Settled settled arc txn p
  Step-Settled p _ (asked arc) = get_lock_status-traced x Settled settled arc p

  Run-Settled : (p q : Process) → Run x p q → Settled p q
  Run-Settled p _ start = λ e. e
  Run-Settled p _ (next q r before step) = λ e. Step-Settled q r step (Run-Settled p q before e)

  -- However activations, operations, lock questions, cancellations and reconciliations follow each
  -- other from the start of the server, between them exactly the buffers that user verification
  -- handed out have been freed, each once and in the order in which they came, that of a v2 call
  -- which was not implemented included.
  pub Run-freed :
      (p : Process) → Run x fresh_process p → buffers_out p.history ≡ buffers_freed p.history
  Run-freed p run = Run-Settled fresh_process p run refl
