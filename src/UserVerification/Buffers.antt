-- ===== src/UserVerification/Buffers.antt =====
-- The buffers that the user verification entrypoints hand out are freed, each once.
use kee_pass_key_win.Prelude.{ℕ, false, some, ok, ◌∷◌, ◌≡◌, ◌≢◌, arith}
use kee_pass_key_win.World.{
  OutBuffer, UserVerificationRequest, UserVerificationRequest2, Externals, Process,
  WebauthnBindings, uv1_called, uv2_called, uv_freed,
}
use kee_pass_key_win.World.Counts.{IsSettled}
use kee_pass_key_win.Hresult.{e_notimpl}
use kee_pass_key_win.UserVerification.{verify_with, free_user_verification_response}

module _ {V : Type 0} (x : Externals V) (b : WebauthnBindings) (req1 : UserVerificationRequest)
    (req2 : UserVerificationRequest2) (out : OutBuffer) (p : Process)
    (loaded : p.bindings ≡ some (ok b)) (empty : out.ptr ≡ 0) where
  -- A verification whose buffer the caller then frees has freed each buffer that was handed out to it,
  -- in the order in which they came, that of a v2 call that was not implemented included; it is called
  -- with a null pointer.
  pub verify_with-freed :
      let ((a, tier), q) = verify_with x b req1 req2 out p in
      IsSettled p.history (free_user_verification_response x a.out.ptr q).history
  unfolding verify_with free_user_verification_response
  verify_with-freed = ground arith

  -- When v2 says that it is not implemented and yet hands out a buffer, that buffer is freed before
  -- v1 is called, and v1 is called with an empty one.
  pub verify_with-freed_first :
      (f : ℕ)
      → let v2 = x.call_perform_uv2 p.history f req2 out in
        b.perform_uv_v2 ≡ some f
        → b.v2_unimplemented ≡ false
        → v2.hr ≡ e_notimpl
        → v2.out.ptr ≢ 0
        → let h = uv_freed v2.out.ptr ∷ uv2_called req2 v2.hr v2.out ∷ p.history in
          let a = x.call_perform_uv h b.perform_uv req1 (record { cb = 0; ptr = 0 }) in
          (verify_with x b req1 req2 out p).1.history ≡ uv1_called req1 a.hr a.out ∷ h
  unfolding verify_with
  verify_with-freed_first f e l h n = ground arith
