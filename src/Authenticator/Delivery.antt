-- ===== src/Authenticator/Delivery.antt =====
-- What a caller that gets a response can rely on.
use kee_pass_key_win.Prelude.{
  ℕ, false, none, some, List, String, Text, Option, Result, ok, err, ◌≡◌, ◌∙◌, ap, refl, arith,
  Option-cases, inl, inr,
}
use kee_pass_key_win.Prelude.{sym, subst, length, codes, [], ◌∷◌, ◌++◌, ◌%◌, ◌^◌}
use kee_pass_key_win.World.{
  Externals, BufferReply, UvTier, Process, UserVerificationRequest, UserVerificationRequest2,
}
use kee_pass_key_win.Utf16.{encode_utf16}
use kee_pass_key_win.Hresult.{e_fail, is_err, s_ok}
use kee_pass_key_win.Ipc.ClientError.{ClientError}
use kee_pass_key_win.UserVerification.{free_user_verification_response}
use kee_pass_key_win.UserVerification.Answers.{
  Answers, Answered, perform_user_verification_2-Answered,
}
use kee_pass_key_win.AddCredentials.{try_add_credentials}
use kee_pass_key_win.Retry.{take_call_with_retry}
use kee_pass_key_win.Authenticator.Carried.{carried, rpc_params-carried}
use kee_pass_key_win.Authenticator.{
  OperationRequest, OperationResponse, Answer, hand_out, conclude, forward, prompt, after_prompt,
  dispatch_operation, encoded_request, request_signature, rpc_params, bytes_at, or_empty,
  extract_prompt_hint,
}

module _ {V : Type 0} (x : Externals V) where
  -- The reply of the plugin that a response was made of: a success whose `cbor` is a string, with the
  -- bytes that this decodes to.
  pub record IsReply (r : Option (Result ClientError V)) (o : OperationResponse) : Type 0 where
    value : V
    text : Text
    replied : r ≡ some (ok value)
    string : x.as_str (x.index value "cbor") ≡ some text
    copied : (bytes : List ℕ) → x.b64_decode text ≡ some bytes → o.copied ≡ bytes
    undecoded : x.b64_decode text ≡ none → o.copied ≡ []

  hand_out-copied :
      (bytes : List ℕ) (p : Process) (o : OperationResponse)
      → (hand_out x bytes p).0 ≡ (s_ok, some o)
      → o.copied ≡ bytes
  unfolding hand_out
  hand_out-copied bytes p o e = ground (arith, e)

  conclude-unread :
      (method : String) (v : V) (p : Process)
      → x.as_str (x.index v "cbor") ≡ none
      → (conclude x method (some (ok v), p)).0 ≡ (e_fail, none)
  unfolding conclude
  conclude-unread method v p e = rw (e, conclude) refl

  conclude-read :
      (method : String) (v : V) (p : Process) (text : Text)
      → x.as_str (x.index v "cbor") ≡ some text
      → conclude x method (some (ok v), p)
        ≡ hand_out x (or_empty (x.b64_decode text)) (try_add_credentials x method v p)
  unfolding conclude
  conclude-read method v p text e = rw (e, conclude) refl

  conclude-IsReply :
      (method : String) (r : Option (Result ClientError V)) (p : Process) (o : OperationResponse)
      → (conclude x method (r, p)).0 ≡ (s_ok, some o)
      → IsReply r o
  unfolding conclude
  conclude-IsReply method none p o e = ground (arith, e)
  conclude-IsReply method (some (err f)) p o e = ground (arith, e)
  conclude-IsReply method (some (ok v)) p o e = elim (Option-cases (x.as_str (x.index v "cbor"))) [
    | inl f ↦ let g = conclude-unread method v p f in ground (arith, e, g)
    | inr (text, f) ↦
        let g =
          ap (λ (r : Answer OperationResponse × Process). r.0) (conclude-read method v p text f) in
        let same = hand_out-copied _ (try_add_credentials x method v p) o (sym g ∙ e) in
        record {
          value = v;
          text = text;
          replied = refl;
          string = f;
          copied = λ bytes d. same ∙ ap or_empty d;
          undecoded = λ d. same ∙ ap or_empty d;
        }
  ]

  -- What a prompt for `req`, of which the bytes are `cbor`, is to ask for: v1 and v2.
  abbrev question1 : OperationRequest → List ℕ → UserVerificationRequest
  question1 req cbor = record {
    hwnd = req.hwnd;
    transaction_id = req.transaction_id;
    username = encode_utf16 (extract_prompt_hint x cbor) ++ 0 ∷ [];
    display_hint = encode_utf16 (codes "KeePassKeyWin" ++ 0 ∷ []);
  }

  abbrev question2 : OperationRequest → List ℕ → UserVerificationRequest2
  question2 req cbor = record {
    hwnd = req.hwnd;
    transaction_id = req.transaction_id;
    username = encode_utf16 (extract_prompt_hint x cbor) ++ 0 ∷ [];
    display_hint = encode_utf16 (codes "KeePassKeyWin" ++ 0 ∷ []);
    cb_buffer_to_sign = length (x.sha256 cbor) % 2 ^ 32;
    buffer_to_sign = x.sha256 cbor;
  }

  -- What stands behind a response: a user who was verified for this request, by a prompt after the
  -- first `n` calls, and the plugin's reply to the one call that hands over the request as it was in
  -- `p`, its signature and the signature of the verification.
  pub record IsDelivery (n arc : ℕ) (req : OperationRequest) (method : String) (p : Process)
      (r : Result Text (BufferReply × UvTier) × Process) (o : OperationResponse) : Type 0 where
    uv : BufferReply
    tier : UvTier
    verified : r.0 ≡ ok (uv, tier)
    asked :
        let cbor = x.read_memory p.history req.pb_encoded_request req.cb_encoded_request in
        Answers n (question1 req cbor) (question2 req cbor) uv tier r.1.history
    approved : is_err uv.hr ≡ false
    reply :
        IsReply
          (take_call_with_retry x method
            (carried x p r.1 req uv tier)
            arc
            (free_user_verification_response x uv.out.ptr r.1)).0
          o

  forward-approved :
      (arc : ℕ) (method : String) (cbor sig : List ℕ) (uv : BufferReply) (tier : UvTier)
      (p : Process) (o : OperationResponse)
      → (forward x arc method cbor sig uv tier p).0 ≡ (s_ok, some o)
      → (is_err uv.hr ≡ false)
        × ((conclude x method (
              take_call_with_retry x method
                (rpc_params x cbor sig (bytes_at x p uv.out.ptr uv.out.cb) tier)
                arc
                (free_user_verification_response x uv.out.ptr p))).0
            ≡ (s_ok, some o))
  unfolding forward
  forward-approved arc method cbor sig uv tier p o e = ground (arith, e)

  prompt-Answered :
      (req : OperationRequest) (cbor : List ℕ) (p : Process)
      → Answered (length p.history) (question1 req cbor) (question2 req cbor) (prompt x req cbor p)
  unfolding prompt
  prompt-Answered req cbor p = perform_user_verification_2-Answered x _ _ _ _ _ _ p

  after_prompt-IsDelivery :
      (n arc : ℕ) (req : OperationRequest) (method : String) (s : Process)
      (r : Result Text (BufferReply × UvTier)) (p : Process) (o : OperationResponse)
      → let cbor = encoded_request x req s in
        Answered n (question1 req cbor) (question2 req cbor) (r, p)
        → (after_prompt x arc method cbor (request_signature x req s) (r, p)).0 ≡ (s_ok, some o)
        → IsDelivery n arc req method s (r, p) o
  unfolding after_prompt encoded_request
  after_prompt-IsDelivery n arc req method s (err f) p o a e = ground (arith, e)
  after_prompt-IsDelivery n arc req method s (ok (uv, tier)) p o a e =
      let q = free_user_verification_response x uv.out.ptr p in
      let cbor = encoded_request x req s in
      let sig = request_signature x req s in
      let params = rpc_params x cbor sig (bytes_at x p uv.out.ptr uv.out.cb) tier in
      let (r, t) = take_call_with_retry x method params arc q in
      let (approved, concluded) = forward-approved arc method cbor sig uv tier p o e in
      let replied = conclude-IsReply method r t o concluded in
      record {
        uv = uv;
        tier = tier;
        verified = refl;
        asked = a;
        approved = approved;
        reply =
            subst (λ (w : V). IsReply (take_call_with_retry x method w arc q).0 o)
              (rpc_params-carried x s p req uv tier) replied;
      }

  -- A caller gets a response only if the user was verified without an error by the operation's own
  -- prompt, and only what the plugin replied: the prompt asked for the request's window and
  -- transaction, by a tier other than v1 for its hash too; the call carried this request, its
  -- signature, the signature of the verification and the name of its tier, each in its own field; its
  -- reply is a success with a string as `cbor`, and the response is the bytes that this decodes to, or
  -- none if it does not decode.
  pub dispatch_operation-IsDelivery :
      (arc : ℕ) (req : OperationRequest) (method : String) (p : Process) (o : OperationResponse)
      → (dispatch_operation x arc req method p).0 ≡ (s_ok, some o)
      → let cbor = x.read_memory p.history req.pb_encoded_request req.cb_encoded_request in
        IsDelivery (length p.history) arc req method p (prompt x req cbor p) o
  unfolding dispatch_operation encoded_request
  dispatch_operation-IsDelivery arc req method p o e =
      let cbor = encoded_request x req p in
      let (r, q) = prompt x req cbor p in
      after_prompt-IsDelivery _ arc req method p r q o (prompt-Answered req cbor p) e
