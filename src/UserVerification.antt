-- ===== src/UserVerification.antt =====
-- The entrypoints of webauthn.dll and the user verification prompt:
-- src/KeePassKeyWin.Provider/src/com/webauthn_ext.rs, com/uv_override.rs and com/uv_fallback.rs.
-- The pointers of a request are held as the buffers that they lead to; log lines are left out.
pub mod Symbols
pub mod Tiers
pub mod Buffers
pub mod Aside
pub mod Answers
pub mod Verdicts
pub mod Loading
use kee_pass_key_win.Prelude.{
  ℕ, ◌%◌, ◌^◌, Bool, true, false, Option, none, some, List, [], ◌∷◌, String, Text, codes, Result,
  ok, err, Exec, ◌>>=◌, return, length, eq_text, trim, to_ascii_lowercase, ◌==◌, ◌||◌,
  if◌then◌else◌,
}
use kee_pass_key_win.World.{
  Guid, UserVerificationRequest, UserVerificationRequest2, OutBuffer, Externals, BufferReply,
  UvTier, v2_stable, v2_experimental, v1, WebauthnBindings, Process, uv1_called, uv2_called,
  uv_freed, emit,
}
use kee_pass_key_win.Hresult.{e_notimpl}
use kee_pass_key_win.Dll.{load_webauthn, try_get_proc, get_proc}

-- UvTier::ipc_str
unfoldable pub ipc_str : UvTier → Text
ipc_str v2_stable = codes "v2_stable"
ipc_str v2_experimental = codes "v2_experimental"
ipc_str v1 = codes "v1"

-- `matches!(v.trim().to_ascii_lowercase().as_str(), "1" | "true" | "yes")`
unfoldable pub is_truthy : Text → Bool
is_truthy v =
    let t = to_ascii_lowercase (trim v) in
    eq_text t (codes "1") || eq_text t (codes "true") || eq_text t (codes "yes")

unfoldable pub force_v1_enabled : Option Text → Bool
force_v1_enabled none = false
force_v1_enabled (some v) = is_truthy v

unfoldable pub should_fallback_to_v1 : ℕ → Bool
should_fallback_to_v1 v2_hr = v2_hr == e_notimpl

-- The cached flag after a v2 call.
unfoldable pub observe_v2_result : Bool → ℕ → Bool
unfolding should_fallback_to_v1
observe_v2_result cache hr = if should_fallback_to_v1 hr then true else cache

abbrev no_proc : Text
no_proc = codes "GetProcAddress failed"

-- The v2 entrypoint that was chosen: its pointer if there is one, the tier, and the symbol's name.
pub record Choice : Type 0 where
  pub entry : Option ℕ
  pub tier : UvTier
  pub name : String

abbrev only_v1 : Choice
only_v1 = record { entry = none; tier = v1; name = "WebAuthNPluginPerformUserVerification" }

-- The names under which the entrypoints are looked up, the stable one first.
abbrev add_names : List String
add_names = "WebAuthNPluginAddAuthenticator" ∷ "EXPERIMENTAL_WebAuthNPluginAddAuthenticator" ∷ []

abbrev remove_names : List String
remove_names =
    "WebAuthNPluginRemoveAuthenticator" ∷ "EXPERIMENTAL_WebAuthNPluginRemoveAuthenticator" ∷ []

abbrev free_response_names : List String
free_response_names =
    "WebAuthNPluginFreeAddAuthenticatorResponse"
    ∷ "EXPERIMENTAL_WebAuthNPluginFreeAddAuthenticatorResponse" ∷ []

abbrev perform_uv_names : List String
perform_uv_names =
    "WebAuthNPluginPerformUserVerification" ∷ "EXPERIMENTAL_WebAuthNPluginPerformUserVerification"
    ∷ []

abbrev free_uv_names : List String
free_uv_names =
    "WebAuthNPluginFreeUserVerificationResponse"
    ∷ "EXPERIMENTAL_WebAuthNPluginFreeUserVerificationResponse" ∷ []

-- The bindings of what was resolved.
abbrev resolved :
    ℕ × String → ℕ × String → ℕ × String → ℕ × String → Choice → ℕ × String → WebauthnBindings
resolved add rem free uv uv2 free_uv = record {
  add = add.0;
  remove = rem.0;
  free_response = free.0;
  perform_uv = uv.0;
  perform_uv_v2 = uv2.entry;
  perform_uv_tier = uv2.tier;
  free_uv_response = free_uv.0;
  v2_unimplemented = false;
  add_symbol_name = add.1;
  perform_uv_symbol_name = uv2.name;
}

module _ {V : Type 0} (x : Externals V) where
  unfoldable pub choose_v2 : ℕ → Process → Choice × Process
  unfolding try_get_proc
  choose_v2 hmod p =
      if force_v1_enabled (x.env_var "KEEPASSKEYWIN_FORCE_UV_V1")
      then (only_v1, p)
      else let stable : String = "WebAuthNPluginPerformUserVerification2" in
        let legacy : String = "EXPERIMENTAL_WebAuthNPluginPerformUserVerification2" in
        let (a, p1) = try_get_proc x hmod stable p in
        elim a [
          | some f ↦ (record { entry = some f; tier = v2_stable; name = stable }, p1)
          | none ↦
              let (b, p2) = try_get_proc x hmod legacy p1 in
              elim b [
                | some f ↦ (record { entry = some f; tier = v2_experimental; name = legacy }, p2)
                | none ↦ (only_v1, p2)
              ]
        ]

  abbrev choose : ℕ → Exec Process Text Choice
  choose hmod p = let (c, p') = choose_v2 hmod p in (ok c, p')

  -- The closure that BINDINGS is filled with.
  unfoldable pub load_bindings : Exec Process Text WebauthnBindings
  unfolding load_webauthn get_proc choose_v2
  load_bindings = do
    hmod ← load_webauthn x
    add ← get_proc x hmod no_proc add_names
    rem ← get_proc x hmod no_proc remove_names
    free ← get_proc x hmod no_proc free_response_names
    uv ← get_proc x hmod no_proc perform_uv_names
    uv2 ← choose hmod
    free_uv ← get_proc x hmod no_proc free_uv_names
    return (resolved add rem free uv uv2 free_uv)

  -- BINDINGS.get_or_init
  unfoldable pub bindings : Exec Process Text WebauthnBindings
  bindings p = elim p.bindings [
    | some r ↦ (r, p)
    | none ↦ let (r, p') = load_bindings p in (r, record p' { bindings = some r })
  ]

  -- `observe_v2_result(&b.v2_unimplemented, hr)` on the cached bindings.
  unfoldable pub observe : WebauthnBindings → ℕ → Process → Process
  unfolding observe_v2_result
  observe b hr p = record p {
    bindings = some (ok (record b { v2_unimplemented = observe_v2_result b.v2_unimplemented hr }));
  }

  unfoldable pub invoke_v1 :
      WebauthnBindings → UserVerificationRequest → OutBuffer → Process → BufferReply × Process
  invoke_v1 b req out p =
      let r = x.call_perform_uv p.history b.perform_uv req out in
      (r, emit (uv1_called req r.hr r.out) p)

  unfoldable pub free_user_verification_response : ℕ → Process → Process
  unfolding bindings
  free_user_verification_response ptr p =
      if ptr == 0
      then p
      else let (b, p') = bindings p in elim b [ ok b ↦ emit (uv_freed ptr) p' | err e ↦ p' ]

  -- The HRESULT and out-parameters of the call that completed, with its tier.
  abbrev by_v1 : BufferReply × Process → (BufferReply × UvTier) × Process
  by_v1 (r, p) = ((r, v1), p)

  -- After E_NOTIMPL: the v2 buffer is freed if there is one, and v1 is called.
  unfoldable pub fall_back :
      WebauthnBindings
      → UserVerificationRequest
      → OutBuffer
      → Process
      → (BufferReply × UvTier) × Process
  unfolding invoke_v1 free_user_verification_response
  fall_back b req out p =
      if out.ptr == 0
      then by_v1 (invoke_v1 b req out p)
      else by_v1
          (invoke_v1 b req (record { cb = 0; ptr = 0 }) (free_user_verification_response out.ptr p))

  -- The v2 call by `f`, with the fallback.
  unfoldable pub try_v2 :
      WebauthnBindings
      → ℕ
      → UserVerificationRequest
      → UserVerificationRequest2
      → OutBuffer
      → Process
      → (BufferReply × UvTier) × Process
  unfolding observe fall_back should_fallback_to_v1
  try_v2 b f req1 req2 out p =
      let r = x.call_perform_uv2 p.history f req2 out in
      let p' = observe b r.hr (emit (uv2_called req2 r.hr r.out) p) in
      if should_fallback_to_v1 r.hr then fall_back b req1 r.out p' else ((r, b.perform_uv_tier), p')

  -- From resolved bindings on.
  unfoldable pub verify_with :
      WebauthnBindings
      → UserVerificationRequest
      → UserVerificationRequest2
      → OutBuffer
      → Process
      → (BufferReply × UvTier) × Process
  unfolding invoke_v1 try_v2
  verify_with b req1 req2 out p = elim b.perform_uv_v2 [
    | none ↦ by_v1 (invoke_v1 b req1 out p)
    | some f ↦
        if b.v2_unimplemented then by_v1 (invoke_v1 b req1 out p) else try_v2 b f req1 req2 out p
  ]

  unfoldable pub perform_user_verification_2 :
      ℕ → Guid → List ℕ → List ℕ → List ℕ → OutBuffer → Exec Process Text (BufferReply × UvTier)
  unfolding bindings verify_with
  perform_user_verification_2 hwnd txid user hint buffer out p =
      let req1 : UserVerificationRequest = record {
        hwnd = hwnd;
        transaction_id = txid;
        username = user;
        display_hint = hint;
      } in
      let req2 : UserVerificationRequest2 = record {
        hwnd = hwnd;
        transaction_id = txid;
        username = user;
        display_hint = hint;
        cb_buffer_to_sign = length buffer % 2 ^ 32;
        buffer_to_sign = buffer;
      } in
      let (b, p1) = bindings p in
      elim b [
        | err e ↦ (err e, p1)
        | ok b ↦ let (r, p2) = verify_with b req1 req2 out p1 in (ok r, p2)
      ]
