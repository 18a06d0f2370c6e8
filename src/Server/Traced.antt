-- ===== src/Server/Traced.antt =====
-- The calls of the server, taken apart: what is kept by the steps that leave the pipe alone, by one call
-- with its retry, and by the call of the background task, is kept by every method of an object and by
-- `reconcile_vault_with_os`.
use kee_pass_key_win.Prelude.{
  ℕ, ◌≡◌, some, none, List, [], String, Text, Result, ok, err, ◌==◌, if_both, Option-cases, inl,
  inr, get_elem?,
}
use kee_pass_key_win.World.{Guid, Externals, BufferReply, UvTier, PipeClient, Process}
use kee_pass_key_win.World.{pipe_of, set_pipe}
use kee_pass_key_win.World.Aside.{IsAside, IsAside-refl, IsMute-IsAside}
use kee_pass_key_win.Hresult.{e_abort, is_err}
use kee_pass_key_win.Ipc.Client.{Session, call_value}
use kee_pass_key_win.UserVerification.{free_user_verification_response}
use kee_pass_key_win.UserVerification.Verdicts.{Verdict}
use kee_pass_key_win.Retry.{take_call_with_retry}
use kee_pass_key_win.Authenticator.{
  OperationRequest, OperationResponse, Answer, forward, prompt, after_prompt, dispatch_operation,
  make_credential, get_assertion, cancel_operation, get_lock_status, encoded_request,
  request_signature, rpc_params, bytes_at,
}
use kee_pass_key_win.Authenticator.Aside.{conclude-IsAside, prompt-Verdict}
use kee_pass_key_win.Reconciliation.{reconcile_vault_with_os}
use kee_pass_key_win.Reconciliation.Aside.{with_vault-IsAside}

-- The session of the background task, with the pipe of `arc` taken out.
abbrev pub task_session : ℕ → PipeClient → Process → Session
task_session arc c p = record { client = c; process = set_pipe arc none p }

-- A relation between processes that the parts of a call keep.
pub record Traced {V : Type 0} (x : Externals V) (R : Process → Process → Type 0) : Type 0 where
  pub along : {p q r : Process} → R p q → R q r → R p r
  pub aside : {p q : Process} → IsAside p q → R p q
  pub retried :
      (method : String) (params : V) (arc : ℕ) (p : Process)
      → R p (take_call_with_retry x method params arc p).1
  -- the call of the background task, after which it puts the pipe back
  pub called :
      (method : String) (params : V) (arc : ℕ) (p : Process) (c : PipeClient)
      → pipe_of (get_elem? p.arcs arc) ≡ some c
      → let (r, t) = call_value x method params (task_session arc c p) in
        R p (set_pipe arc (some t.client) t.process)

module _ {V : Type 0} (x : Externals V) (R : Process → Process → Type 0) (t : Traced x R) where
  pub unchanged : (p : Process) → R p p
  unchanged p = t.aside (IsAside-refl p)

  forward-traced :
      (arc : ℕ) (method : String) (cbor sig : List ℕ) (uv : BufferReply) (tier : UvTier)
      (o p : Process)
      → IsAside o (free_user_verification_response x uv.out.ptr p)
      → R o (forward x arc method cbor sig uv tier p).1
  unfolding forward
  forward-traced arc method cbor sig uv tier o p a =
      let q = free_user_verification_response x uv.out.ptr p in
      let freed : R o q = t.aside a in
      let params = rpc_params x cbor sig (bytes_at x p uv.out.ptr uv.out.cb) tier in
      let (r, u) = take_call_with_retry x method params arc q in
      let called : R o u = t.along freed (t.retried method params arc q) in
      let end = t.along called (t.aside (conclude-IsAside x method r u)) in
      let reached : Answer OperationResponse × Process → Type 0 = λ r. R o r.1 in
      if_both reached (uv.hr == e_abort) freed (if_both reached (is_err uv.hr) freed end)

  after_prompt-traced :
      (arc : ℕ) (method : String) (cbor sig : List ℕ) (r : Result Text (BufferReply × UvTier))
      (o p : Process)
      → Verdict x o (r, p)
      → R o (after_prompt x arc method cbor sig (r, p)).1
  unfolding after_prompt
  after_prompt-traced arc method cbor sig (err e) o p a = t.aside (IsMute-IsAside a)
  after_prompt-traced arc method cbor sig (ok (uv, tier)) o p a =
      forward-traced arc method cbor sig uv tier o p (IsMute-IsAside a)

  dispatch_operation-traced :
      (arc : ℕ) (req : OperationRequest) (method : String) (p : Process)
      → R p (dispatch_operation x arc req method p).1
  unfolding dispatch_operation
  dispatch_operation-traced arc req method p =
      let cbor = encoded_request x req p in
      let (r, q) = prompt x req cbor p in
      after_prompt-traced arc method cbor (request_signature x req p) r p q
        (prompt-Verdict x req cbor p)

  pub make_credential-traced :
      (arc : ℕ) (req : OperationRequest) (p : Process) → R p (make_credential x arc req p).1
  unfolding make_credential
  make_credential-traced arc req p = dispatch_operation-traced arc req _ p

  pub get_assertion-traced :
      (arc : ℕ) (req : OperationRequest) (p : Process) → R p (get_assertion x arc req p).1
  unfolding get_assertion
  get_assertion-traced arc req p = dispatch_operation-traced arc req _ p

  pub cancel_operation-traced :
      (arc : ℕ) (txn : Guid) (p : Process) → R p (cancel_operation x arc txn p).1
  unfolding cancel_operation
  cancel_operation-traced arc txn p = t.retried _ _ arc p

  pub get_lock_status-traced : (arc : ℕ) (p : Process) → R p (get_lock_status x arc p).1
  unfolding get_lock_status
  get_lock_status-traced arc p = t.retried _ _ arc p

  pub reconcile_vault_with_os-traced :
      (arc : ℕ) (p : Process) → R p (reconcile_vault_with_os x arc p)
  unfolding reconcile_vault_with_os
  reconcile_vault_with_os-traced arc p = elim (Option-cases (pipe_of (get_elem? p.arcs arc))) [
    | inl e ↦ rw (e, reconcile_vault_with_os) (unchanged p)
    | inr (c, e) ↦
        let method : String = "keepasskeywin.enumerateForSync" in
        let (r, s) = call_value x method (x.object []) (task_session arc c p) in
        let q = set_pipe arc (some s.client) s.process in
        let done : R p q = t.called method (x.object []) arc p c e in
        rw (e, reconcile_vault_with_os) (t.along done (t.aside (with_vault-IsAside x r q)))
  ]
