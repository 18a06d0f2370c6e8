-- ===== src/Authenticator/Verified.antt =====
-- No operation reaches the plugin unless the user was verified, and what a caller is given.
use kee_pass_key_win.Prelude.{
  ℕ, ◌%◌, ◌^◌, true, Option, none, some, List, String, Text, Result, ok, err, ◌≡◌, ◌≢◌, arith,
  length, Bool-cases, ◌==◌, ◌∷◌, Option-cases, inl, inr, refl,
}
use kee_pass_key_win.World.{memory_allocated, History, Externals, BufferReply, UvTier, Process}
use kee_pass_key_win.World.Aside.{IsAside, IsMute-IsAside}
use kee_pass_key_win.Hresult.{e_fail, is_err, s_ok}
use kee_pass_key_win.Ipc.ClientError.{ClientError}
use kee_pass_key_win.UserVerification.Verdicts.{Verdict}
use kee_pass_key_win.UserVerification.{free_user_verification_response}
use kee_pass_key_win.AddCredentials.{try_add_credentials}
use kee_pass_key_win.Retry.{take_call_with_retry}
use kee_pass_key_win.Authenticator.{
  OperationRequest, OperationResponse, Answer, hresult_of, hand_out, conclude, forward, prompt,
  after_prompt, dispatch_operation, encoded_request, request_signature, rpc_params, bytes_at,
  or_empty,
}
use kee_pass_key_win.Authenticator.Aside.{prompt-Verdict}

-- The user was not verified: the prompt could not be shown, or its HRESULT is an error.
abbrev pub Refused : Result Text (BufferReply × UvTier) → Type 0
Refused (err e) = Unit
Refused (ok (uv, tier)) = is_err uv.hr ≡ true

-- The HRESULT that then goes to the caller.
abbrev pub refusal : Result Text (BufferReply × UvTier) → ℕ
refusal (err e) = e_fail
refusal (ok (uv, tier)) = uv.hr

module _ {V : Type 0} (x : Externals V) where
  -- A response is there exactly with S_OK, and then it is what was copied for the caller, into the
  -- memory of that size that was allocated last.
  abbrev pub Written : Answer OperationResponse × Process → Type 0
  Written ((hr, none), q) = hr ≢ s_ok
  Written ((hr, some r), q) =
      (hr ≡ s_ok)
      × (r.pb_encoded_response ≢ 0)
      × (r.cb_encoded_response ≡ length r.copied % 2 ^ 32)
      × ((h : History) × (q.history ≡ memory_allocated (length r.copied) ∷ h)
          × (r.pb_encoded_response ≡ x.co_task_mem_alloc h (length r.copied)))

  after_prompt-Refused :
      (arc : ℕ) (method : String) (cbor sig : List ℕ) (r : Result Text (BufferReply × UvTier))
      (p q : Process)
      → Verdict x p (r, q)
      → Refused r
      → let (answer, t) = after_prompt x arc method cbor sig (r, q) in
        (answer ≡ (refusal r, none)) × IsAside p t
  unfolding after_prompt forward
  after_prompt-Refused arc method cbor sig (err e) p q a h = (refl, IsMute-IsAside a)
  after_prompt-Refused arc method cbor sig (ok (uv, tier)) p q a h =
      ground (arith, h, IsMute-IsAside a)

  -- When the user is not verified, the caller gets the HRESULT of the verification, or E_FAIL if it
  -- could not be asked for, and no response; nothing was sent to the plugin and no pipe touched.
  pub dispatch_operation-Refused :
      (arc : ℕ) (req : OperationRequest) (method : String) (p : Process)
      → let r = (prompt x req (encoded_request x req p) p).0 in
        Refused r
        → let (answer, q) = dispatch_operation x arc req method p in
          (answer ≡ (refusal r, none)) × IsAside p q
  unfolding dispatch_operation
  dispatch_operation-Refused arc req method p h =
      let cbor = encoded_request x req p in
      let (r, q) = prompt x req cbor p in
      after_prompt-Refused arc method cbor (request_signature x req p) r p q
        (prompt-Verdict x req cbor p) h

  hresult_of-fails : (e : ClientError) → hresult_of e ≢ s_ok
  unfolding hresult_of
  hresult_of-fails e = ground arith

  hand_out-Written : (bytes : List ℕ) (p : Process) → Written (hand_out x bytes p)
  unfolding hand_out
  hand_out-Written bytes p = elim (Bool-cases (x.co_task_mem_alloc p.history (length bytes) == 0)) [
    | inl e ↦ rw e (ground arith)
    | inr e ↦ rw e (refl, ground (arith, e), refl, (p.history, refl, refl))
  ]

  conclude-Written :
      (method : String) (r : Option (Result ClientError V)) (p : Process)
      → Written (conclude x method (r, p))
  unfolding conclude
  conclude-Written method none p = ground arith
  conclude-Written method (some (err e)) p = hresult_of-fails e
  conclude-Written method (some (ok v)) p =
      let q = try_add_credentials x method v p in
      elim (Option-cases (x.as_str (x.index v "cbor"))) [
        | inl e ↦ rw (e, conclude) (ground arith)
        | inr (t, e) ↦ rw (e, conclude) (hand_out-Written (or_empty (x.b64_decode t)) q)
      ]

  after_prompt-Written :
      (arc : ℕ) (method : String) (cbor sig : List ℕ) (r : Result Text (BufferReply × UvTier))
      (p : Process)
      → Written (after_prompt x arc method cbor sig (r, p))
  unfolding after_prompt forward
  after_prompt-Written arc method cbor sig (err e) p = ground arith
  after_prompt-Written arc method cbor sig (ok (uv, tier)) p =
      let q = free_user_verification_response x uv.out.ptr p in
      let params = rpc_params x cbor sig (bytes_at x p uv.out.ptr uv.out.cb) tier in
      let (r, t) = take_call_with_retry x method params arc q in
      ground (arith, conclude-Written method r t)

  -- The caller gets a response exactly with S_OK: what was copied, with its length, behind the pointer
  -- that CoTaskMemAlloc gave in the last call, which asked for that many bytes, and which is not
  -- null. With every other HRESULT it gets none.
  pub dispatch_operation-Written :
      (arc : ℕ) (req : OperationRequest) (method : String) (p : Process)
      → Written (dispatch_operation x arc req method p)
  unfolding dispatch_operation
  dispatch_operation-Written arc req method p =
      let (r, q) = prompt x req (encoded_request x req p) p in
      after_prompt-Written arc method (encoded_request x req p) (request_signature x req p) r q
