-- ===== src/UserVerification/Aside.antt =====
-- The entrypoints of user verification do not touch the plugin's pipe.
use kee_pass_key_win.Prelude.{ℕ, Option, none, some, List, String, arith}
use kee_pass_key_win.World.{
  Guid, OutBuffer, UserVerificationRequest, UserVerificationRequest2, Externals, Process,
  WebauthnBindings,
}
use kee_pass_key_win.World.{BufferReply, emit, uv2_called}
use kee_pass_key_win.World.Aside.{
  IsMute, IsApart, IsMute-refl, IsApart-trans, IsMute-IsApart, StaysAside, return-StaysAside,
  >>=-StaysAside,
}
use kee_pass_key_win.Dll.{load_webauthn, get_proc, load_webauthn-IsMute, get_proc-IsMute}
use kee_pass_key_win.UserVerification.{
  no_proc, add_names, remove_names, free_response_names, perform_uv_names, free_uv_names, resolved,
  choose_v2, choose, load_bindings, bindings, observe, invoke_v1, free_user_verification_response,
  fall_back, try_v2, verify_with, perform_user_verification_2,
}

abbrev ptr_of : Option ℕ → ℕ
ptr_of none = 0
ptr_of (some f) = f

module _ {V : Type 0} (x : Externals V) where
  choose_v2-IsMute : (hmod : ℕ) (p : Process) → IsMute p (choose_v2 x hmod p).1
  unfolding choose_v2
  choose_v2-IsMute hmod p = ground arith

  load_webauthn-StaysAside : StaysAside (load_webauthn x)
  load_webauthn-StaysAside = record { aside = load_webauthn-IsMute x }

  get_proc-StaysAside :
      (hmod : ℕ) (names : List String) → StaysAside (get_proc x hmod no_proc names)
  get_proc-StaysAside hmod names = record { aside = get_proc-IsMute x hmod no_proc names }

  choose-StaysAside : (hmod : ℕ) → StaysAside (choose x hmod)
  choose-StaysAside hmod = record { aside = choose_v2-IsMute hmod }

  load_bindings-StaysAside : StaysAside (load_bindings x)
  unfolding load_bindings
  load_bindings-StaysAside = >>=-StaysAside load_webauthn-StaysAside λ hmod.
      >>=-StaysAside (get_proc-StaysAside hmod add_names) λ add.
        >>=-StaysAside (get_proc-StaysAside hmod remove_names) λ rem.
          >>=-StaysAside (get_proc-StaysAside hmod free_response_names) λ free.
            >>=-StaysAside (get_proc-StaysAside hmod perform_uv_names) λ uv.
              >>=-StaysAside (choose-StaysAside hmod) λ uv2.
                >>=-StaysAside (get_proc-StaysAside hmod free_uv_names)
                  λ free_uv. return-StaysAside (resolved add rem free uv uv2 free_uv)

  pub bindings-IsMute : (p : Process) → IsMute p (bindings x p).1
  unfolding bindings
  bindings-IsMute p = ground (arith, load_bindings-StaysAside.aside p, IsMute-refl p)

  bindings-IsApart : (p : Process) → IsApart p (bindings x p).1
  bindings-IsApart p = IsMute-IsApart (bindings-IsMute p)

  pub free_user_verification_response-IsApart :
      (ptr : ℕ) (p : Process) → IsApart p (free_user_verification_response x ptr p)
  unfolding free_user_verification_response
  free_user_verification_response-IsApart ptr p = ground (arith, bindings-IsApart p)

  invoke_v1-IsApart :
      (b : WebauthnBindings) (req : UserVerificationRequest) (out : OutBuffer) (p : Process)
      → IsApart p (invoke_v1 x b req out p).1
  unfolding invoke_v1
  invoke_v1-IsApart b req out p = ground arith

  fall_back-IsApart :
      (b : WebauthnBindings) (req : UserVerificationRequest) (out : OutBuffer) (p : Process)
      → IsApart p (fall_back x b req out p).1
  unfolding fall_back
  fall_back-IsApart b req out p =
      let freed = free_user_verification_response x out.ptr p in
      let a = invoke_v1-IsApart b req out p in
      let f =
        IsApart-trans (free_user_verification_response-IsApart out.ptr p)
          (invoke_v1-IsApart b req (record { cb = 0; ptr = 0 }) freed) in
      ground (arith, a, f)

  observed-IsApart :
      (b : WebauthnBindings) (req2 : UserVerificationRequest2) (r : BufferReply) (p : Process)
      → IsApart p (observe x b r.hr (emit (uv2_called req2 r.hr r.out) p))
  unfolding observe
  observed-IsApart b req2 r p = ground arith

  pub verify_with-IsApart :
      (b : WebauthnBindings) (req : UserVerificationRequest) (req2 : UserVerificationRequest2)
      (out : OutBuffer) (p : Process)
      → IsApart p (verify_with x b req req2 out p).1
  unfolding verify_with try_v2 observe
  verify_with-IsApart b req req2 out p =
      let r = x.call_perform_uv2 p.history (ptr_of b.perform_uv_v2) req2 out in
      let q = observe x b r.hr (emit (uv2_called req2 r.hr r.out) p) in
      let o : IsApart p q = observed-IsApart b req2 r p in
      ground
        (arith, invoke_v1-IsApart b req out p, o, IsApart-trans o (fall_back-IsApart b req r.out q))

  pub perform_user_verification_2-IsApart :
      (hwnd : ℕ) (txid : Guid) (user hint buffer : List ℕ) (out : OutBuffer) (p : Process)
      → IsApart p (perform_user_verification_2 x hwnd txid user hint buffer out p).1
  unfolding perform_user_verification_2
  perform_user_verification_2-IsApart hwnd txid user hint buffer out p =
      let rest : (b : WebauthnBindings) (req : UserVerificationRequest)
            (req2 : UserVerificationRequest2)
          → IsApart p (verify_with x b req req2 out (bindings x p).1).1 =
        λ b req req2.
          IsApart-trans (bindings-IsApart p)
            (verify_with-IsApart b req req2 out (bindings x p).1) in
      ground (arith, bindings-IsApart p, rest)
