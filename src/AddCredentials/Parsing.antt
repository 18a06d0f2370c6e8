-- ===== src/AddCredentials/Parsing.antt =====
-- When the fields of a credential can be read.
use kee_pass_key_win.Prelude.{
  ℕ, Option, none, some, List, String, Text, Result, ok, err, ◌↔◌, arith,
}
use kee_pass_key_win.World.{Externals}
use kee_pass_key_win.AddCredentials.{AddCredentialsFields, parse_add_credentials_fields}

module _ {V : Type 0} (x : Externals V) where
  abbrev pub text : V → String → Option Text
  text v key = x.as_str (x.index v key)

  -- The bytes in a base64 field, if it is a string that decodes.
  abbrev pub bytes : Option Text → Option (List ℕ)
  bytes none = none
  bytes (some t) = x.b64_url_decode t

  abbrev pub IsThere : {A : Type 0} → Option A → Type 0
  IsThere none = ⊥
  IsThere (some a) = Unit

  abbrev pub Succeeds : Result String AddCredentialsFields → Type 0
  Succeeds (ok f) = Unit
  Succeeds (err e) = ⊥

  -- Reading the fields succeeds exactly if the four texts are there and both identifiers are there
  -- and decode.
  pub parse_add_credentials_fields-Succeeds :
      (v : V)
      → Succeeds (parse_add_credentials_fields x v) ↔ (
          IsThere (bytes (text v "credentialIdB64Url"))
          × IsThere (text v "rpId")
          × IsThere (text v "rpName")
          × IsThere (bytes (text v "userHandleB64Url"))
          × IsThere (text v "userName")
          × IsThere (text v "userDisplayName"))
  unfolding parse_add_credentials_fields
  parse_add_credentials_fields-Succeeds v = ground arith
