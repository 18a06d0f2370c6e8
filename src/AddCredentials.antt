-- ===== src/AddCredentials.antt =====
-- Publishing a credential to Windows after its creation: `parse_add_credentials_fields` and
-- `try_add_credentials` of src/KeePassKeyWin.Provider/src/com/server.rs. Log lines are left out.
pub mod Aside
pub mod Parsing
pub mod Described
pub mod Publishing
use kee_pass_key_win.Prelude.{
  ℕ, ◌%◌, ◌^◌, Bool, List, String, Text, Result, ok, err, ok_or, length, str_eq, if◌then◌else◌,
}
use kee_pass_key_win.World.{CredentialDetails, Externals, Process}
use kee_pass_key_win.Utf16.{encode_utf16_nul}
use kee_pass_key_win.CredentialStore.{add_credentials}

pub record AddCredentialsFields : Type 0 where
  pub credential_id : List ℕ
  pub user_handle : List ℕ
  pub rp_id_w : List ℕ
  pub rp_name_w : List ℕ
  pub user_name_w : List ℕ
  pub user_disp_w : List ℕ

-- `?` on a result without state
infixl 5 ◌>>=◌
abbrev pub ◌>>=◌ : {E A B : Type 0} → Result E A → (A → Result E B) → Result E B
ok a >>= f = f a
err e >>= f = err e

-- The record that is handed to webauthn.dll; lengths are cast to `u32`.
unfoldable pub details_of : AddCredentialsFields → CredentialDetails
details_of f = record {
  cb_credential_id = length f.credential_id % 2 ^ 32;
  credential_id = f.credential_id;
  rp_id = f.rp_id_w;
  rp_name = f.rp_name_w;
  cb_user_id = length f.user_handle % 2 ^ 32;
  user_id = f.user_handle;
  user_name = f.user_name_w;
  user_display_name = f.user_disp_w;
}

module _ {V : Type 0} (x : Externals V) where
  -- `v[key].as_str().ok_or(key)?`
  abbrev pub field : V → String → Result String Text
  field v key = ok_or (x.as_str (x.index v key)) key

  unfoldable pub parse_add_credentials_fields : V → Result String AddCredentialsFields
  parse_add_credentials_fields v = do
    credential_id_b64 ← field v "credentialIdB64Url"
    rp_id ← field v "rpId"
    rp_name ← field v "rpName"
    user_handle_b64 ← field v "userHandleB64Url"
    user_name ← field v "userName"
    user_disp ← field v "userDisplayName"
    credential_id ← ok_or (x.b64_url_decode credential_id_b64) "credentialIdB64Url decode"
    user_handle ← ok_or (x.b64_url_decode user_handle_b64) "userHandleB64Url decode"
    ok (record {
      credential_id = credential_id;
      user_handle = user_handle;
      rp_id_w = encode_utf16_nul rp_id;
      rp_name_w = encode_utf16_nul rp_name;
      user_name_w = encode_utf16_nul user_name;
      user_disp_w = encode_utf16_nul user_disp;
    })

  -- Whatever comes of it, the caller goes on.
  unfoldable pub publish : Result String AddCredentialsFields → Process → Process
  unfolding details_of add_credentials
  publish (err field) p = p
  publish (ok fields) p = (add_credentials x (details_of fields) p).1

  unfoldable pub try_add_credentials : String → V → Process → Process
  unfolding publish
  try_add_credentials method v p =
      if str_eq method "keepasskeywin.makeCredentialRaw"
      then publish (parse_add_credentials_fields v) p
      else p
