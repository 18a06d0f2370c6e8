-- ===== src/UserVerification/Verdicts.antt =====
-- A verification leaves the pipe alone, and settles its buffers once the caller has freed its own.
use kee_pass_key_win.Prelude.{
  ℕ, List, Text, Result, ok, err, some, ◌≡◌, arith, Result-cases, inl, inr,
}
use kee_pass_key_win.World.{
  Guid, OutBuffer, UserVerificationRequest, UserVerificationRequest2, BufferReply, UvTier,
  Externals, Process, WebauthnBindings,
}
use kee_pass_key_win.World.Aside.{IsMute, IsMute-trans, IsApart-trans, IsApart-IsMute}
use kee_pass_key_win.UserVerification.{
  bindings, verify_with, perform_user_verification_2, free_user_verification_response,
}
use kee_pass_key_win.UserVerification.Aside.{
  bindings-IsMute, free_user_verification_response-IsApart, verify_with-IsApart,
}
use kee_pass_key_win.UserVerification.Buffers.{verify_with-freed}

-- From `p` on: nothing is left to free if the verification could not be asked for, and nothing when the
-- buffer of its answer is freed.
abbrev pub Verdict :
    {V : Type 0} → Externals V → Process → Result Text (BufferReply × UvTier) × Process → Type 0
Verdict x p (err e, q) = IsMute p q
Verdict x p (ok (r, tier), q) = IsMute p (free_user_verification_response x r.out.ptr q)

module _ {V : Type 0} (x : Externals V) where
  bindings-cached :
      (p : Process) (b : WebauthnBindings)
      → (bindings x p).0 ≡ ok b
      → (bindings x p).1.bindings ≡ some (ok b)
  unfolding bindings
  bindings-cached p b e = ground (arith, e)

  verify_with-Verdict :
      (b : WebauthnBindings) (req1 : UserVerificationRequest) (req2 : UserVerificationRequest2)
      (out : OutBuffer) (p : Process)
      → p.bindings ≡ some (ok b)
      → out.ptr ≡ 0
      → let ((r, tier), q) = verify_with x b req1 req2 out p in
        IsMute p (free_user_verification_response x r.out.ptr q)
  verify_with-Verdict b req1 req2 out p loaded empty =
      let ((r, tier), q) = verify_with x b req1 req2 out p in
      let apart =
        IsApart-trans (verify_with-IsApart x b req1 req2 out p)
          (free_user_verification_response-IsApart x r.out.ptr q) in
      IsApart-IsMute apart (verify_with-freed x b req1 req2 out p loaded empty)

  -- Every verification that is asked for with an empty buffer.
  pub perform_user_verification_2-Verdict :
      (hwnd : ℕ) (txid : Guid) (user hint buffer : List ℕ) (out : OutBuffer) (p : Process)
      → out.ptr ≡ 0
      → Verdict x p (perform_user_verification_2 x hwnd txid user hint buffer out p)
  unfolding perform_user_verification_2
  perform_user_verification_2-Verdict hwnd txid user hint buffer out p empty =
      let q = (bindings x p).1 in
      elim (Result-cases (bindings x p).0) [
        | inl (b, e) ↦
            rw (e, Verdict, perform_user_verification_2)
              (IsMute-trans (bindings-IsMute x p)
                (verify_with-Verdict b _ _ out q (bindings-cached p b e) empty))
        | inr (t, e) ↦ rw (e, Verdict, perform_user_verification_2) (bindings-IsMute x p)
      ]
