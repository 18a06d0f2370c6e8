-- ===== src/CredentialStore.antt =====
-- src/KeePassKeyWin.Provider/src/com/webauthnplugin_ext.rs: the system's database of credentials,
-- behind entrypoints of webauthn.dll of which all but one may be absent.
pub mod Aside
use kee_pass_key_win.Prelude.{ℕ, ◌||◌, none, some, Text, codes, ok, err, Exec, ◌==◌, if◌then◌else◌}
use kee_pass_key_win.World.{
  CredentialDetails, OutBuffer, Externals, CredentialBindings, Process, credentials_added,
  credentials_listed, credential_removed, details_freed, emit,
}
use kee_pass_key_win.Hresult.{is_err}
use kee_pass_key_win.Dll.{load_webauthn, try_get_proc}

abbrev missing : Text
missing = codes "not exported by webauthn.dll on this build"

abbrev list_failed : Text
list_failed = codes "GetAllCredentials failed"

module _ {V : Type 0} (x : Externals V) where
  -- The three optional symbols, after the required one.
  unfoldable pub resolve_optional : ℕ → ℕ → Process → CredentialBindings × Process
  unfolding try_get_proc
  resolve_optional hmod add p =
      let (all, p1) = try_get_proc x hmod "WebAuthNPluginAuthenticatorGetAllCredentials" p in
      let (remove, p2) = try_get_proc x hmod "WebAuthNPluginAuthenticatorRemoveCredentials" p1 in
      let (free, p3) =
        try_get_proc x hmod "WebAuthNPluginAuthenticatorFreeCredentialDetailsArray" p2 in
      (
        record {
          add_credentials = add;
          get_all_credentials = all;
          remove_credentials = remove;
          free_credential_details_array = free;
        },
        p3,
      )

  unfoldable pub load_bindings : Exec Process Text CredentialBindings
  unfolding load_webauthn try_get_proc resolve_optional
  load_bindings p =
      let (m, p1) = load_webauthn x p in
      elim m [
        | err e ↦ (err e, p1)
        | ok hmod ↦
            let (add, p2) = try_get_proc x hmod "WebAuthNPluginAuthenticatorAddCredentials" p1 in
            elim add [
              | none ↦ (err missing, p2)
              | some f ↦ let (b, p3) = resolve_optional hmod f p2 in (ok b, p3)
            ]
      ]

  unfoldable pub bindings : Exec Process Text CredentialBindings
  unfolding load_bindings
  bindings p = elim p.credential_bindings [
    | some r ↦ (r, p)
    | none ↦ let (r, p') = load_bindings p in (r, record p' { credential_bindings = some r })
  ]

  -- `add_credentials` with a slice of one record
  unfoldable pub add_credentials : CredentialDetails → Exec Process Text ℕ
  unfolding bindings
  add_credentials details p =
      let (b, p1) = bindings p in
      elim b [
        | err e ↦ (err e, p1)
        | ok b ↦ (
          ok (x.call_add_credentials p1.history b.add_credentials details),
          emit (credentials_added details) p1,
        )
      ]

  -- The count and the array.
  unfoldable pub get_all_credentials : Exec Process Text OutBuffer
  unfolding bindings
  get_all_credentials p =
      let (b, p1) = bindings p in
      elim b [
        | err e ↦ (err e, p1)
        | ok b ↦ elim b.get_all_credentials [
          | none ↦ (err missing, p1)
          | some f ↦
              let r = x.call_get_all_credentials p1.history f in
              let p2 = emit (credentials_listed r.out.cb r.out.ptr) p1 in
              if is_err r.hr then (err list_failed, p2) else (ok r.out, p2)
        ]
      ]

  -- The record at index `i` of an array.
  unfoldable pub remove_credentials : ℕ → ℕ → Exec Process Text ℕ
  unfolding bindings
  remove_credentials arr i p =
      let (b, p1) = bindings p in
      elim b [
        | err e ↦ (err e, p1)
        | ok b ↦ elim b.remove_credentials [
          | none ↦ (err missing, p1)
          | some f ↦ (
            ok (x.call_remove_credentials p1.history f arr i),
            emit (credential_removed arr i) p1,
          )
        ]
      ]

  unfoldable pub free_credential_details_array : ℕ → ℕ → Process → Process
  unfolding bindings
  free_credential_details_array count arr p =
      if (count == 0) || (arr == 0)
      then p
      else let (b, p1) = bindings p in
        elim b [
          | err e ↦ p1
          | ok b ↦ elim b.free_credential_details_array [
            | none ↦ p1
            | some f ↦ emit (details_freed count arr) p1
          ]
        ]
