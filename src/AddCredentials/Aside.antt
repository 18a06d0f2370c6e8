-- ===== src/AddCredentials/Aside.antt =====
-- Publishing a credential does not touch the plugin's pipe.
use kee_pass_key_win.Prelude.{Result, ok, err, String, arith}
use kee_pass_key_win.World.{Externals, Process}
use kee_pass_key_win.World.Aside.{IsAside, IsAside-refl}
use kee_pass_key_win.CredentialStore.Aside.{add_credentials-IsAside}
use kee_pass_key_win.AddCredentials.{
  publish, try_add_credentials, AddCredentialsFields, parse_add_credentials_fields, details_of,
}

module _ {V : Type 0} (x : Externals V) where
  publish-IsAside :
      (r : Result String AddCredentialsFields) (p : Process) → IsAside p (publish x r p)
  unfolding publish
  publish-IsAside (err f) p = IsAside-refl p
  publish-IsAside (ok f) p = add_credentials-IsAside x (details_of f) p

  pub try_add_credentials-IsAside :
      (method : String) (v : V) (p : Process) → IsAside p (try_add_credentials x method v p)
  unfolding try_add_credentials
  try_add_credentials-IsAside method v p =
      ground (arith, publish-IsAside (parse_add_credentials_fields x v) p, IsAside-refl p)
