-- ===== src/UserVerification/Answers.antt =====
-- The answer that a verification gives is that of the prompt which it was asked for.
use kee_pass_key_win.Prelude.{
  ℕ, ◌%◌, ◌^◌, List, ◌∷◌, Text, Result, ok, err, length, ◌≡◌, ◌≤◌, arith, Result-cases, inl, inr,
}
use kee_pass_key_win.World.{
  Guid, OutBuffer, UserVerificationRequest, UserVerificationRequest2, BufferReply, UvTier, v1,
  Externals, Process, WebauthnBindings, History, uv1_called, uv2_called,
}
use kee_pass_key_win.UserVerification.Aside.{bindings-IsMute}
use kee_pass_key_win.UserVerification.{verify_with, bindings, perform_user_verification_2}

-- The last call was a prompt by one of the two requests, after `n` others at least, whose HRESULT and
-- buffer are the ones given; the tier is then v1 if v1 was called.
abbrev pub Answers :
    ℕ → UserVerificationRequest → UserVerificationRequest2 → BufferReply → UvTier → History → Type 0
Answers n req1 req2 r tier (uv1_called q hr out ∷ h) =
    (n ≤ length h) × (q ≡ req1) × (hr ≡ r.hr) × (out ≡ r.out) × (tier ≡ v1)
Answers n req1 req2 r tier (uv2_called q hr out ∷ h) =
    (n ≤ length h) × (q ≡ req2) × (hr ≡ r.hr) × (out ≡ r.out)
Answers _ _ _ _ _ _ = ⊥

module _ {V : Type 0} (x : Externals V) where
  verify_with-Answers :
      (b : WebauthnBindings) (req1 : UserVerificationRequest) (req2 : UserVerificationRequest2)
      (out : OutBuffer) (p : Process) (n : ℕ)
      → n ≤ length p.history
      → let ((r, tier), q) = verify_with x b req1 req2 out p in Answers n req1 req2 r tier q.history
  unfolding verify_with
  verify_with-Answers b req1 req2 out p n le = ground (arith, le)

-- The outcome of a verification: it could not be asked for, or it was answered.
abbrev pub Answered :
    ℕ
    → UserVerificationRequest
    → UserVerificationRequest2
    → Result Text (BufferReply × UvTier) × Process
    → Type 0
Answered n req1 req2 (err e, q) = Unit
Answered n req1 req2 (ok (r, tier), q) = Answers n req1 req2 r tier q.history

module _ {V : Type 0} (x : Externals V) where
  -- A verification that is not an error is the answer to a prompt shown then for its own window,
  -- transaction and texts, and by a v2 entrypoint for its own buffer.
  pub perform_user_verification_2-Answered :
      (hwnd : ℕ) (txid : Guid) (user hint buffer : List ℕ) (out : OutBuffer) (p : Process)
      → Answered
          (length p.history)
          (record { hwnd = hwnd; transaction_id = txid; username = user; display_hint = hint })
          (record {
            hwnd = hwnd;
            transaction_id = txid;
            username = user;
            display_hint = hint;
            cb_buffer_to_sign = length buffer % 2 ^ 32;
            buffer_to_sign = buffer;
          })
          (perform_user_verification_2 x hwnd txid user hint buffer out p)
  unfolding perform_user_verification_2
  perform_user_verification_2-Answered hwnd txid user hint buffer out p =
      elim (Result-cases (bindings x p).0) [
        | inl (b, e) ↦
            rw (e, Answered, perform_user_verification_2)
              (verify_with-Answers x b _ _ out (bindings x p).1 (length p.history)
                (bindings-IsMute x p).longer)
        | inr (t, e) ↦ rw (e, Answered, perform_user_verification_2) tt
      ]
