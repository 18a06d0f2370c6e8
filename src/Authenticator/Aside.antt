-- ===== src/Authenticator/Aside.antt =====
-- What the methods of the authenticator do before and after the call of the plugin leaves the pipe alone.
use kee_pass_key_win.Prelude.{
  ℕ, Option, none, some, List, String, Result, ok, err, arith, refl, Option-cases, inl, inr,
}
use kee_pass_key_win.World.{Externals, Process}
use kee_pass_key_win.World.Aside.{IsAside, IsAside-refl, IsAside-trans}
use kee_pass_key_win.Ipc.ClientError.{ClientError}
use kee_pass_key_win.UserVerification.Verdicts.{Verdict, perform_user_verification_2-Verdict}
use kee_pass_key_win.AddCredentials.{try_add_credentials}
use kee_pass_key_win.AddCredentials.Aside.{try_add_credentials-IsAside}
use kee_pass_key_win.Authenticator.{OperationRequest, hand_out, conclude, prompt, or_empty}

module _ {V : Type 0} (x : Externals V) where
  hand_out-IsAside : (bytes : List ℕ) (p : Process) → IsAside p (hand_out x bytes p).1
  unfolding hand_out
  hand_out-IsAside bytes p = ground arith

  pub conclude-IsAside :
      (method : String) (r : Option (Result ClientError V)) (p : Process)
      → IsAside p (conclude x method (r, p)).1
  unfolding conclude
  conclude-IsAside method none p = IsAside-refl p
  conclude-IsAside method (some (err e)) p = IsAside-refl p
  conclude-IsAside method (some (ok v)) p =
      let q = try_add_credentials x method v p in
      let a = try_add_credentials-IsAside x method v p in
      elim (Option-cases (x.as_str (x.index v "cbor"))) [
        | inl e ↦ rw (e, conclude) (IsAside-refl p)
        | inr (t, e) ↦
            rw (e, conclude) (IsAside-trans a (hand_out-IsAside (or_empty (x.b64_decode t)) q))
      ]

  pub prompt-Verdict :
      (req : OperationRequest) (cbor : List ℕ) (p : Process) → Verdict x p (prompt x req cbor p)
  unfolding prompt
  prompt-Verdict req cbor p = perform_user_verification_2-Verdict x _ _ _ _ _ _ p refl
