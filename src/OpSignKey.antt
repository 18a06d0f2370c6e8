-- ===== src/OpSignKey.antt =====
-- src/KeePassKeyWin.Provider/src/com/request_sig.rs: the operation-signing public key, fetched once
-- per process from webauthn.dll, on Windows. Log lines are left out.
pub mod Cache
pub mod Release
use kee_pass_key_win.Prelude.{
  ℕ, Bool, Option, none, some, List, [], ◌∷◌, ◌++◌, String, Text, codes, Result, ok, err, to_option,
  ◌==◌, ◌||◌, if◌then◌else◌,
}
use kee_pass_key_win.World.{Externals, BufferReply, Process, key_called, key_freed, emit}
use kee_pass_key_win.Hresult.{is_err, nte_bad_signature}
use kee_pass_key_win.Guid.{clsid_guid, clsid_text}
use kee_pass_key_win.Utf16.{to_utf16_null}
use kee_pass_key_win.Dll.{load_webauthn, try_get_proc}

pub data GetKeyVariant : Type 0 where
  ref_clsid : ℕ → String → GetKeyVariant
  pwstr : ℕ → GetKeyVariant

pub record KeyBindings : Type 0 where
  pub get_key : GetKeyVariant
  pub free_key : Option ℕ

abbrev no_symbol : Text
no_symbol = codes "GetProcAddress failed for WebAuthNPluginGetOperationSigningPublicKey"

module _ {V : Type 0} (x : Externals V) where
  -- stable, then EXPERIMENTAL2_, then EXPERIMENTAL_ with a wide string
  unfoldable pub resolve_get_key : ℕ → Process → Result Text GetKeyVariant × Process
  unfolding try_get_proc
  resolve_get_key hmod p =
      let stable : String = "WebAuthNPluginGetOperationSigningPublicKey" in
      let second : String = "EXPERIMENTAL2_WebAuthNPluginGetOperationSigningPublicKey" in
      let oldest : String = "EXPERIMENTAL_WebAuthNPluginGetOperationSigningPublicKey" in
      let (a, p1) = try_get_proc x hmod stable p in
      elim a [
        | some f ↦ (ok (ref_clsid f stable), p1)
        | none ↦
            let (b, p2) = try_get_proc x hmod second p1 in
            elim b [
              | some f ↦ (ok (ref_clsid f second), p2)
              | none ↦
                  let (c, p3) = try_get_proc x hmod oldest p2 in
                  elim c [ some f ↦ (ok (pwstr f), p3) | none ↦ (err no_symbol, p3) ]
            ]
      ]

  unfoldable pub probe_free_key : ℕ → Process → Option ℕ × Process
  unfolding try_get_proc
  probe_free_key hmod p = try_get_proc x hmod "WebAuthNPluginFreePublicKeyResponse" p

  unfoldable pub load_key_bindings : Process → Result Text KeyBindings × Process
  unfolding load_webauthn resolve_get_key probe_free_key
  load_key_bindings p =
      let (m, p1) = load_webauthn x p in
      elim m [
        | err e ↦ (err e, p1)
        | ok hmod ↦
            let (g, p2) = resolve_get_key hmod p1 in
            elim g [
              | err e ↦ (err e, p2)
              | ok get_key ↦
                  let (free_key, p3) = probe_free_key hmod p2 in
                  (ok (record { get_key = get_key; free_key = free_key }), p3)
            ]
      ]

  -- The call of the entrypoint that was resolved.
  unfoldable pub call_get_key : GetKeyVariant → Process → BufferReply × Process
  call_get_key (ref_clsid f name) p =
      let r = x.call_get_key_refclsid p.history f in (r, emit (key_called r.hr r.out.ptr) p)
  call_get_key (pwstr f) p =
      let r = x.call_get_key_pwstr p.history f (to_utf16_null (clsid_text clsid_guid)) in
      (r, emit (key_called r.hr r.out.ptr) p)

  -- Freeing the buffer, where the symbol for it is there.
  unfoldable pub free_key_buffer : Option ℕ → ℕ → Process → Process
  free_key_buffer none ptr p = p
  free_key_buffer (some f) ptr p = emit (key_freed ptr) p

  unfoldable pub fetch_key_from_dll : Process → Result ℕ (List ℕ) × Process
  unfolding load_key_bindings call_get_key free_key_buffer
  fetch_key_from_dll p =
      let (b, p1) = load_key_bindings p in
      elim b [
        | err e ↦ (err nte_bad_signature, p1)
        | ok bindings ↦
            let (r, p2) = call_get_key bindings.get_key p1 in
            if is_err r.hr
            then (
              err nte_bad_signature,
              if r.out.ptr == 0 then p2 else free_key_buffer bindings.free_key r.out.ptr p2,
            )
            else if (r.out.ptr == 0) || (r.out.cb == 0)
            then (err nte_bad_signature, p2)
            else (
              ok (x.read_memory p2.history r.out.ptr r.out.cb),
              free_key_buffer bindings.free_key r.out.ptr p2,
            )
      ]

  -- OP_SIGN_KEY_CACHE.get_or_init
  unfoldable pub get_signing_key_bytes : Process → Result ℕ (List ℕ) × Process
  unfolding fetch_key_from_dll
  get_signing_key_bytes p = elim p.op_sign_key [
    | some r ↦ (r, p)
    | none ↦ let (r, p') = fetch_key_from_dll p in (r, record p' { op_sign_key = some r })
  ]

  unfoldable pub get_op_sign_pub_key_bytes_for_hello : Process → Option (List ℕ) × Process
  unfolding get_signing_key_bytes
  get_op_sign_pub_key_bytes_for_hello p = let (r, p') = get_signing_key_bytes p in (to_option r, p')
