-- ===== src/Server/Lost.antt =====
-- Objects whose state has no pipe reach the plugin no more; only a new activation connects.
use kee_pass_key_win.Prelude.{
  ℕ, ◌≡◌, ◌≢◌, arith, ◌∙◌, ap, refl, none, some, List, String, Text, Result, ok, err, get_elem?,
  ◌==◌, if_both,
}
use kee_pass_key_win.World.{Externals, BufferReply, UvTier, AuthenticatorState}
use kee_pass_key_win.World.{Process, pipe_of}
use kee_pass_key_win.World.Aside.{IsAside, IsMute-IsAside}
use kee_pass_key_win.Hresult.{s_ok, e_abort, is_err}
use kee_pass_key_win.UserVerification.{free_user_verification_response}
use kee_pass_key_win.UserVerification.Verdicts.{Verdict}
use kee_pass_key_win.Retry.{take_call_with_retry}
use kee_pass_key_win.Authenticator.{
  OperationRequest, OperationResponse, Answer, conclude, forward, prompt, after_prompt,
  dispatch_operation, encoded_request, request_signature, rpc_params, bytes_at,
}
use kee_pass_key_win.Authenticator.Aside.{prompt-Verdict}
use kee_pass_key_win.Authenticator.Verified.{Written}

-- Nothing is handed out, and the pipes are left alone.
abbrev pub Fruitless : Process → Answer OperationResponse × Process → Type 0
Fruitless p (answer, q) = (answer.1 ≡ none) × IsAside p q

pub Written-none :
    {V : Type 0} (x : Externals V) (a : Answer OperationResponse) (q : Process)
    → a.1 ≡ none
    → Written x (a, q)
    → a.0 ≢ s_ok
Written-none x (hr, none) q e w = w
Written-none x (hr, some r) q e w = ground (arith, e)

module _ {V : Type 0} (x : Externals V) (arc : ℕ) where
  pub lost_call :
      (method : String) (params : V) (p : Process)
      → pipe_of (get_elem? p.arcs arc) ≡ none
      → take_call_with_retry x method params arc p ≡ (none, p)
  unfolding take_call_with_retry
  lost_call method params p e = rw (e, take_call_with_retry) refl

  forward-Fruitless :
      (method : String) (cbor sig : List ℕ) (uv : BufferReply) (tier : UvTier) (o p : Process)
      → pipe_of (get_elem? o.arcs arc) ≡ none
      → IsAside o (free_user_verification_response x uv.out.ptr p)
      → Fruitless o (forward x arc method cbor sig uv tier p)
  unfolding forward conclude
  forward-Fruitless method cbor sig uv tier o p e a =
      let q = free_user_verification_response x uv.out.ptr p in
      let params = rpc_params x cbor sig (bytes_at x p uv.out.ptr uv.out.cb) tier in
      let gone : pipe_of (get_elem? q.arcs arc) ≡ none =
        ap (λ (zs : List AuthenticatorState). pipe_of (get_elem? zs arc)) a.arcs ∙ e in
      let none_called : Fruitless o
          (conclude x method (take_call_with_retry x method params arc q)) =
        rw (lost_call method params q gone) (refl, a) in
      if_both (Fruitless o) (uv.hr == e_abort) (refl, a)
        (if_both (Fruitless o) (is_err uv.hr) (refl, a) none_called)

  after_prompt-Fruitless :
      (method : String) (cbor sig : List ℕ) (r : Result Text (BufferReply × UvTier)) (o p : Process)
      → pipe_of (get_elem? o.arcs arc) ≡ none
      → Verdict x o (r, p)
      → Fruitless o (after_prompt x arc method cbor sig (r, p))
  unfolding after_prompt
  after_prompt-Fruitless method cbor sig (err f) o p e a = (refl, IsMute-IsAside a)
  after_prompt-Fruitless method cbor sig (ok (uv, tier)) o p e a =
      forward-Fruitless method cbor sig uv tier o p e (IsMute-IsAside a)

  pub dispatch_operation-Fruitless :
      (req : OperationRequest) (method : String) (p : Process)
      → pipe_of (get_elem? p.arcs arc) ≡ none
      → Fruitless p (dispatch_operation x arc req method p)
  unfolding dispatch_operation
  dispatch_operation-Fruitless req method p e =
      let cbor = encoded_request x req p in
      let (r, q) = prompt x req cbor p in
      after_prompt-Fruitless method cbor (request_signature x req p) r p q e
        (prompt-Verdict x req cbor p)
