-- ===== src/Registration.antt =====
-- `cmd_register` and `cmd_unregister` of src/KeePassKeyWin.Provider/src/com/exe_server.rs, with the
-- wrappers of com/webauthn_ext.rs that they call. What is printed and logged is left out.
pub mod Laws
use kee_pass_key_win.Prelude.{
  ℕ, ◌%◌, ◌^◌, ◌||◌, String, Text, codes, ◌++◌, Result, ok, err, Exec, length, ◌==◌, if◌then◌else◌,
}
use kee_pass_key_win.World.{
  AddAuthenticatorOptions, Externals, BufferReply, Process, com_initialized, com_uninitialized,
  authenticator_added, authenticator_removed, add_response_freed, emit,
}
use kee_pass_key_win.Hresult.{is_err, s_ok, nte_exists}
use kee_pass_key_win.Hex.{hex_pad}
use kee_pass_key_win.AuthenticatorInfo.{authenticator_get_info_cbor}
use kee_pass_key_win.Guid.{clsid_guid}
use kee_pass_key_win.Utf16.{to_utf16_null}
use kee_pass_key_win.UserVerification.Symbols.{resolved_add_symbol_name}
use kee_pass_key_win.UserVerification.{bindings}

abbrev pub hr_not_found : ℕ
hr_not_found = 0x80070490

abbrev pub hr_file_not_found : ℕ
hr_file_not_found = 0x80070002

abbrev theme_logo_svg_b64 : Text
theme_logo_svg_b64 =
    codes "PHN2ZyB4bWxucz0iaHR0cDovL3d3dy53My5vcmcvMjAwMC9zdmciIHdpZHRoPSIxNiIgaGVpZ2h0PSIxNiIvPg=="

-- A message that ends in an HRESULT, `0x{:08x}`.
unfoldable pub failed : String → ℕ → Text
failed what hr = codes what ++ codes " failed: 0x" ++ hex_pad 97 8 hr

abbrev retry_failed : ℕ → Text
retry_failed hr =
    codes "WebAuthNPluginAddAuthenticator failed after remove+retry: 0x" ++ hex_pad 97 8 hr

module _ {V : Type 0} (x : Externals V) where
  unfoldable pub options : AddAuthenticatorOptions
  unfolding authenticator_get_info_cbor
  options = record {
    authenticator_name = to_utf16_null (codes "KeePassKeyWin");
    clsid = clsid_guid;
    plugin_rp_id = to_utf16_null (codes "keepasskeywin.local");
    light_theme_logo_svg = to_utf16_null theme_logo_svg_b64;
    dark_theme_logo_svg = to_utf16_null theme_logo_svg_b64;
    cb_authenticator_info = length (authenticator_get_info_cbor x.into_writer) % 2 ^ 32;
    authenticator_info = authenticator_get_info_cbor x.into_writer;
    c_supported_rp_ids = 0;
  }

  -- The HRESULT and the pointer to the response.
  unfoldable pub add_authenticator : AddAuthenticatorOptions → Exec Process Text BufferReply
  unfolding bindings
  add_authenticator opts p =
      let (b, p1) = bindings x p in
      elim b [
        | err e ↦ (err e, p1)
        | ok b ↦
            let r = x.call_add_authenticator p1.history b.add opts in
            (ok r, emit (authenticator_added r.hr r.out.ptr) p1)
      ]

  unfoldable pub remove_authenticator : Exec Process Text ℕ
  unfolding bindings
  remove_authenticator p =
      let (b, p1) = bindings x p in
      elim b [
        | err e ↦ (err e, p1)
        | ok b ↦
            (ok (x.call_remove_authenticator p1.history b.remove), emit authenticator_removed p1)
      ]

  unfoldable pub free_add_authenticator_response : ℕ → Process → Process
  unfolding bindings
  free_add_authenticator_response ptr p =
      if ptr == 0
      then p
      else let (b, p1) = bindings x p in
        elim b [ err e ↦ p1 | ok b ↦ emit (add_response_freed ptr) p1 ]

  -- One Add with its response freed: the HRESULT.
  unfoldable pub add_once : Exec Process Text ℕ
  unfolding add_authenticator free_add_authenticator_response
  add_once p =
      let (r, p1) = add_authenticator options p in
      elim r [
        | err e ↦ (err e, p1)
        | ok r ↦ (ok r.hr, free_add_authenticator_response r.out.ptr p1)
      ]

  -- The second Add, after the removal of a stale registration.
  unfoldable pub conclude_retry : Result Text ℕ × Process → Result Text (Unit {0}) × Process
  conclude_retry (err e, p) = (err e, p)
  conclude_retry (ok hr, p) = if is_err hr then (err (retry_failed hr), p) else (ok tt, p)

  unfoldable pub conclude_add : Result Text ℕ × Process → Result Text (Unit {0}) × Process
  unfolding conclude_retry add_once remove_authenticator
  conclude_add (err e, p) = (err e, p)
  conclude_add (ok hr, p) =
      if hr == nte_exists
      then conclude_retry (add_once (remove_authenticator p).1)
      else if is_err hr
      then (err (failed "WebAuthNPluginAddAuthenticator" hr), p)
      else (ok tt, p)

  -- What runs between CoInitializeEx and the drop of the guard; the look at the resolved symbol
  -- fills the bindings first.
  unfoldable pub register : Exec Process Text (Unit {0})
  unfolding resolved_add_symbol_name add_once conclude_add
  register p = conclude_add (add_once (resolved_add_symbol_name x p).1)

  unfoldable pub conclude_remove : Result Text ℕ × Process → Result Text (Unit {0}) × Process
  conclude_remove (err e, p) = (err e, p)
  conclude_remove (ok hr, p) =
      if hr == s_ok
      then (ok tt, p)
      else if (hr == hr_not_found) || (hr == hr_file_not_found)
      then (ok tt, p)
      else (err (failed "EXPERIMENTAL_WebAuthNPluginRemoveAuthenticator" hr), p)

  unfoldable pub unregister : Exec Process Text (Unit {0})
  unfolding remove_authenticator conclude_remove
  unregister p = conclude_remove (remove_authenticator p)

  -- CoInitializeEx before, and CoUninitialize after, by the guard.
  unfoldable pub with_com : Exec Process Text (Unit {0}) → Exec Process Text (Unit {0})
  with_com body p =
      let hr = x.co_initialize p.history in
      let p1 = emit com_initialized p in
      let (r, p2) = body p1 in
      if is_err hr
      then (err (failed "CoInitializeEx(STA)" hr), p1)
      else (r, emit com_uninitialized p2)

  unfoldable pub cmd_register : Exec Process Text (Unit {0})
  unfolding with_com register
  cmd_register = with_com register

  unfoldable pub cmd_unregister : Exec Process Text (Unit {0})
  unfolding with_com unregister
  cmd_unregister = with_com unregister
