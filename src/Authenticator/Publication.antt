-- ===== src/Authenticator/Publication.antt =====
-- Which credential an operation tells the system of.
use kee_pass_key_win.Prelude.{
  ℕ, true, false, none, some, List, ◌∷◌, String, Text, Option, Result, ok, err, str_eq, ◌≡◌, ◌⊎◌,
  ◌∙◌, ap, subst, arith, refl, get_elem?, Option-cases, Bool-cases, inl, inr,
}
use kee_pass_key_win.World.{Externals, BufferReply, UvTier, Process, pipe_of, session_of, set_pipe}
use kee_pass_key_win.World.Counts.{published}
use kee_pass_key_win.Hresult.{is_err}
use kee_pass_key_win.Ipc.ClientError.{ClientError}
use kee_pass_key_win.Ipc.Classify.{clear_slot}
use kee_pass_key_win.Connection.{clear_shared_state}
use kee_pass_key_win.UserVerification.{free_user_verification_response}
use kee_pass_key_win.UserVerification.Verdicts.{Verdict}
use kee_pass_key_win.AddCredentials.{try_add_credentials}
use kee_pass_key_win.AddCredentials.Publishing.{Untold, IsNew, try_add_credentials-Told}
use kee_pass_key_win.Retry.{CallOutcome, reconcile_state, take_call_with_retry}
use kee_pass_key_win.Retry.Frame.{IsRetry, orchestrate-IsRetry}
use kee_pass_key_win.Authenticator.Carried.{carried, rpc_params-carried}
use kee_pass_key_win.Authenticator.{
  OperationRequest, OperationResponse, Answer, hand_out, conclude, forward, prompt, after_prompt,
  dispatch_operation, encoded_request, request_signature, rpc_params, bytes_at, or_empty,
}
use kee_pass_key_win.Authenticator.Aside.{prompt-Verdict}

module _ {V : Type 0} (x : Externals V) where
  reconcile_state-Untold :
      (method : String) (params : V) (arc : ℕ) (p : Process) (o : CallOutcome V)
      → IsRetry p o
      → Untold p (reconcile_state x method params arc o)
  unfolding reconcile_state clear_shared_state clear_slot
  reconcile_state-Untold method params arc p o k = ground (arith, k.told)

  take_call_with_retry-Untold :
      (method : String) (params : V) (arc : ℕ) (p : Process)
      → Untold p (take_call_with_retry x method params arc p).1
  unfolding take_call_with_retry
  take_call_with_retry-Untold method params arc p =
      elim (Option-cases (pipe_of (get_elem? p.arcs arc))) [
        | inl e ↦ rw (e, take_call_with_retry) refl
        | inr (c, h) ↦
            let q = set_pipe arc none p in
            let k = orchestrate-IsRetry x method params c (session_of (get_elem? p.arcs arc)) q in
            rw (h, take_call_with_retry) (reconcile_state-Untold method params arc q _ k)
      ]

  hand_out-Untold : (bytes : List ℕ) (p : Process) → Untold p (hand_out x bytes p).1
  unfolding hand_out
  hand_out-Untold bytes p = ground arith

  -- What the reply to a creation brings about.
  abbrev Created : String → Option (Result ClientError V) → Process → Process → Type 0
  Created method r p q =
      (v : V) × (r ≡ some (ok v))
      × (str_eq method "keepasskeywin.makeCredentialRaw" ≡ true)
      × IsNew x v p q

  conclude-Told :
      (method : String) (r : Option (Result ClientError V)) (p : Process)
      → let q = (conclude x method (r, p)).1 in Untold p q ⊎ Created method r p q
  unfolding conclude
  conclude-Told method none p = inl refl
  conclude-Told method (some (err e)) p = inl refl
  conclude-Told method (some (ok v)) p = elim (Option-cases (x.as_str (x.index v "cbor"))) [
    | inl e ↦ inl (rw (e, conclude) refl)
    | inr (text, e) ↦
        let q = try_add_credentials x method v p in
        let same = hand_out-Untold (or_empty (x.b64_decode text)) q in
        elim (try_add_credentials-Told x method v p) [
          | inl n ↦ inl (rw (e, conclude) (same ∙ n))
          | inr (c, (f, h, t)) ↦ inr (v, refl, c, (f, h, rw (e, conclude) (same ∙ t)))
        ]
  ]

  forward-refused :
      (arc : ℕ) (method : String) (cbor sig : List ℕ) (uv : BufferReply) (tier : UvTier)
      (p : Process)
      → is_err uv.hr ≡ true
      → (forward x arc method cbor sig uv tier p).1 ≡ free_user_verification_response x uv.out.ptr p
  unfolding forward
  forward-refused arc method cbor sig uv tier p h = ground (arith, h)

  forward-verified :
      (arc : ℕ) (method : String) (cbor sig : List ℕ) (uv : BufferReply) (tier : UvTier)
      (p : Process)
      → is_err uv.hr ≡ false
      → forward x arc method cbor sig uv tier p
        ≡ conclude x method (
            take_call_with_retry x method
              (rpc_params x cbor sig (bytes_at x p uv.out.ptr uv.out.cb) tier)
              arc
              (free_user_verification_response x uv.out.ptr p))
  unfolding forward
  forward-verified arc method cbor sig uv tier p h = ground (arith, h)

  -- What stands behind a credential that the system is told of between `o` and `q`: a verified user, the
  -- call for a creation, and a success of the plugin from which the credential was read.
  pub record IsPublication (arc : ℕ) (req : OperationRequest) (method : String)
      (r : Result Text (BufferReply × UvTier) × Process) (o q : Process) : Type 0 where
    uv : BufferReply
    tier : UvTier
    verified : r.0 ≡ ok (uv, tier)
    approved : is_err uv.hr ≡ false
    value : V
    replied :
        (take_call_with_retry x method
          (carried x o r.1 req uv tier)
          arc
          (free_user_verification_response x uv.out.ptr r.1)).0
        ≡ some (ok value)
    created : str_eq method "keepasskeywin.makeCredentialRaw" ≡ true
    read : IsNew x value o q

  after_prompt-Told :
      (arc : ℕ) (req : OperationRequest) (method : String) (r : Result Text (BufferReply × UvTier))
      (o p : Process)
      → Verdict x o (r, p)
      → let cbor = encoded_request x req o in
        let q = (after_prompt x arc method cbor (request_signature x req o) (r, p)).1 in
        Untold o q ⊎ IsPublication arc req method (r, p) o q
  unfolding after_prompt
  after_prompt-Told arc req method (err e) o p a = inl a.told
  after_prompt-Told arc req method (ok (uv, tier)) o p a =
      let cbor = encoded_request x req o in
      let sig = request_signature x req o in
      let s = free_user_verification_response x uv.out.ptr p in
      let params = rpc_params x cbor sig (bytes_at x p uv.out.ptr uv.out.cb) tier in
      let (r, t) = take_call_with_retry x method params arc s in
      let before : Untold o t = take_call_with_retry-Untold method params arc s ∙ a.told in
      elim (Bool-cases (is_err uv.hr)) [
        | inl e ↦ inl (
            ap (λ (q : Process). published q.history)
              (forward-refused arc method cbor sig uv tier p e)
            ∙ a.told)
        | inr e ↦
            let step =
              ap (λ (z : Answer OperationResponse × Process). published z.1.history)
                (forward-verified arc method cbor sig uv tier p e) in
            elim (conclude-Told method r t) [
              | inl n ↦ inl (step ∙ n ∙ before)
              | inr (v, replied, created, (f, parsed, told)) ↦ inr (record {
                uv = uv;
                tier = tier;
                verified = refl;
                approved = e;
                value = v;
                replied =
                    subst (λ (w : V). (take_call_with_retry x method w arc s).0 ≡ some (ok v))
                      (rpc_params-carried x o p req uv tier) replied;
                created = created;
                read = (f, parsed, step ∙ told ∙ ap (λ ds. f ∷ ds) before);
              })
            ]
      ]

  -- An operation tells the system of one credential at most: only in a creation, only if the user
  -- was verified without an error by the operation's own prompt, and only of the credential that the
  -- plugin's successful reply describes: the identifiers of the credential and of the user, the party
  -- and its name, and the user's two names are each those of their own field. The call that was
  -- replied to carried this request, its signature, the signature of the verification and the name of
  -- its tier, each in its own field.
  pub dispatch_operation-Told :
      (arc : ℕ) (req : OperationRequest) (method : String) (p : Process)
      → let cbor = x.read_memory p.history req.pb_encoded_request req.cb_encoded_request in
        let q = (dispatch_operation x arc req method p).1 in
        Untold p q ⊎ IsPublication arc req method (prompt x req cbor p) p q
  unfolding dispatch_operation encoded_request
  dispatch_operation-Told arc req method p =
      let cbor = encoded_request x req p in
      let (r, q) = prompt x req cbor p in
      after_prompt-Told arc req method r p q (prompt-Verdict x req cbor p)
