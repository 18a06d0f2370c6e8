-- ===== src/AddCredentials/Described.antt =====
-- The credential that a value of the plugin describes, field by field, and that this is what is read from
-- it.
use kee_pass_key_win.Prelude.{
  ℕ, ◌%◌, ◌^◌, Option, none, some, List, [], ◌∷◌, ◌++◌, String, Text, Result, ok, err, ◌≡◌, arith,
  length,
}
use kee_pass_key_win.World.{CredentialDetails, Externals}
use kee_pass_key_win.Utf16.{encode_utf16, encode_utf16_nul}
use kee_pass_key_win.AddCredentials.{AddCredentialsFields, details_of, parse_add_credentials_fields}
use kee_pass_key_win.AddCredentials.Parsing.{text, bytes}

-- The zero-terminated UTF-16 of a text.
abbrev wide : Text → List ℕ
wide t = encode_utf16 t ++ 0 ∷ []

-- The details of a credential, from its identifier, its party, the party's name, its user's
-- identifier, name and display name: all of them, or nothing.
abbrev credential :
    Option (List ℕ)
    → Option Text
    → Option Text
    → Option (List ℕ)
    → Option Text
    → Option Text
    → Option CredentialDetails
credential (some id) (some rp) (some name) (some user) (some user_name) (some display) =
    some (record {
      cb_credential_id = length id % 2 ^ 32;
      credential_id = id;
      rp_id = wide rp;
      rp_name = wide name;
      cb_user_id = length user % 2 ^ 32;
      user_id = user;
      user_name = wide user_name;
      user_display_name = wide display;
    })
credential _ _ _ _ _ _ = none

abbrev pub details_or_none : Result String AddCredentialsFields → Option CredentialDetails
details_or_none (ok f) = some (details_of f)
details_or_none (err e) = none

module _ {V : Type 0} (x : Externals V) where
  abbrev pub described : V → Option CredentialDetails
  described v =
      credential (bytes x (text x v "credentialIdB64Url")) (text x v "rpId") (text x v "rpName")
        (bytes x (text x v "userHandleB64Url")) (text x v "userName") (text x v "userDisplayName")

  -- What is read from a value is the credential that it describes, if all of its fields are there.
  pub parse_add_credentials_fields-described :
      (v : V) → details_or_none (parse_add_credentials_fields x v) ≡ described v
  unfolding parse_add_credentials_fields details_of encode_utf16_nul
  parse_add_credentials_fields-described v = ground arith
