-- ===== src/CommandLine.antt =====
-- The commands of src/KeePassKeyWin.Provider/src/main.rs. Printing is left out; what a complete run of
-- `make-credential` has printed is its value.
pub mod Arguments
pub mod Outside
pub mod Nonce
pub mod Agreement
pub mod Flags
pub mod Dispatch
pub mod Exit
pub mod Bounds
pub mod Counts
use kee_pass_key_win.Prelude.{
  ℕ, Bool, true, false, Option, none, some, List, [], ◌∷◌, String, Text, codes, Result, ok, err,
  map_err, Exec, ◌>>=◌, ◌>>◌, return, eq_text, length, ltb, take, get_elem?, if◌then◌else◌,
}
use kee_pass_key_win.World.{PipeClient, Process}
use kee_pass_key_win.Ctap.{
  CreatePasskeyParams, CreatePasskeyResult, CredentialInfo, SignAssertionResult,
  DeleteCredentialResult, rp_id_hash,
}
use kee_pass_key_win.Ipc.ClientError.{ClientError}
use kee_pass_key_win.Ipc.Client.{Session, call, connect, handshake}
use kee_pass_key_win.Connection.{drop_client, pkg_family}
use kee_pass_key_win.OpSignKey.{get_op_sign_pub_key_bytes_for_hello}
use kee_pass_key_win.Registration.{cmd_register, cmd_unregister}
use kee_pass_key_win.CommandLine.Arguments.{
  Subcommand, plugin_activated, register, unregister, smoke, make_credential, unknown,
  parse_subcommand, flag, session_or_one,
}
use kee_pass_key_win.ComServer as ComServer
use kee_pass_key_win.ComServer.{Message, Served, run_com_server}
use kee_pass_key_win.CommandLine.Outside.{CommandExternals, server_of}
use kee_pass_key_win.CommandLine.Nonce.{read_nonce_from_registry}

-- Why a command ends early: `process::exit(1)` without a nonce, or the step that failed.
pub data Stop : Type 0 where
  exited : Stop
  connect_failed handshake_failed : ClientError → Stop
  create_failed list_failed sign_failed delete_failed : ClientError → Stop

-- What `make-credential` prints: the credential, whether the hash in the authenticator data is that
-- of the relying party (if there is room for one), the number of credentials, the length of the
-- signature, and whether the credential was deleted.
pub record Summary : Type 0 where
  pub credential_id : Text
  pub hash_matches : Option Bool
  pub credentials : ℕ
  pub signature_bytes : ℕ
  pub deleted : Bool

abbrev pub text_or : String → Option Text → Text
text_or s none = codes s
text_or s (some t) = t

-- A failed step as the command's error.
abbrev pub step :
    {A : Type 0} → (ClientError → Stop) → Exec Session ClientError A → Exec Session Stop A
step failed m s = let (r, t) = m s in (map_err failed r, t)

abbrev or_empty : Option (List ℕ) → List ℕ
or_empty none = []
or_empty (some bs) = bs

abbrev pub with_session : ℕ → Option Text × Process → Option (ℕ × Text) × Process
with_session sid (none, p) = (none, p)
with_session sid (some nonce, p) = (some (sid, nonce), p)

abbrev zeros : ℕ → List ℕ
zeros ℕ.zero = []
zeros (ℕ.suc n) = 0 ∷ zeros n

module _ {V : Type 0} (x : CommandExternals V) where
  -- `none` is the exit with code 1.
  unfoldable pub parse_session_nonce : List Text → Process → Option (ℕ × Text) × Process
  unfolding read_nonce_from_registry flag
  parse_session_nonce args p =
      let sid = session_or_one (flag args (codes "--session")) in
      elim (flag args (codes "--nonce")) [
        | some nonce ↦ (some (sid, nonce), p)
        | none ↦ with_session sid (read_nonce_from_registry x p)
      ]

  -- The handshake on a fresh client, which is dropped if it fails.
  unfoldable pub shake :
      Text → Result ClientError PipeClient × Process → Result Stop PipeClient × Process
  unfolding drop_client
  shake nonce (err e, p) = (err (connect_failed e), p)
  shake nonce (ok c, p) =
      let (pub_key, p1) = get_op_sign_pub_key_bytes_for_hello x.base p in
      let s : Session = record { client = c; process = p1 } in
      let (r, t) = handshake x.base pkg_family nonce pub_key s in
      elim r [
        | ok _ ↦ (ok t.client, t.process)
        | err e ↦ (err (handshake_failed e), drop_client t.client t.process)
      ]

  -- A command on a client that is connected and greeted, and dropped at the end.
  unfoldable pub on_client :
      {A : Type 0}
      → Exec Session Stop A
      → Result Stop PipeClient × Process
      → Result Stop A × Process
  unfolding drop_client
  on_client body (err e, p) = (err e, p)
  on_client body (ok c, p) =
      let (r, t) = body (record { client = c; process = p }) in (r, drop_client t.client t.process)

  -- From the arguments on.
  unfoldable pub connected :
      {A : Type 0} → Exec Session Stop A → Option (ℕ × Text) × Process → Result Stop A × Process
  unfolding on_client shake
  connected body (none, p) = (err exited, p)
  connected body (some (sid, nonce), p) = on_client body (shake nonce (connect x.base sid p))

  unfoldable pub cmd_smoke : List Text → Exec Process Stop (Unit {0})
  unfolding connected parse_session_nonce
  cmd_smoke args p = connected (λ s. (ok tt, s)) (parse_session_nonce args p)

  abbrev pub decoded : Text → List ℕ
  decoded t = or_empty (x.base.b64_decode t)

  unfoldable pub check_auth_data : Text → Text → Option Bool
  unfolding rp_id_hash eq_text
  check_auth_data rp_id auth_data =
      let bytes = decoded auth_data in
      if ltb (length bytes) 32
      then none
      else some (eq_text (take 32 bytes) (rp_id_hash x.base.sha256 rp_id))

  unfoldable pub create : Text → Text → Exec Session Stop CreatePasskeyResult
  create rp_id user = step create_failed (
      call x.base x.create_to_string x.created_from_value "keepasskeywin.createPasskey" (record {
        rp_id = rp_id;
        rp_name = rp_id;
        user_handle = x.base.b64_encode (codes "test-user-handle");
        user_name = user;
        user_display_name = user;
      }))

  unfoldable pub list : Text → Exec Session Stop (List CredentialInfo)
  list rp_id = step list_failed (
      call x.base x.list_to_string x.credentials_from_value "keepasskeywin.listCredentials"
        (record { rp_id = rp_id }))

  unfoldable pub sign : Text → Exec Session Stop SignAssertionResult
  sign credential_id =
      let client_data = codes "{\"type\":\"webauthn.get\",\"challenge\":\"dGVzdA\"}" in
      step sign_failed (
        call x.base x.sign_to_string x.signature_from_value "keepasskeywin.signAssertion" (record {
          credential_id = credential_id;
          auth_data = x.base.b64_encode (zeros 37);
          client_data_hash = x.base.b64_encode (x.base.sha256 client_data);
        }))

  unfoldable pub delete : Text → Exec Session Stop DeleteCredentialResult
  delete credential_id = step delete_failed (
      call x.base x.delete_to_string x.deleted_from_value "keepasskeywin.deleteCredential"
        (record { credential_id = credential_id }))

  -- The calls of `make-credential`, one after the other.
  unfoldable pub make : Text → Text → Exec Session Stop Summary
  unfolding create list sign delete check_auth_data
  make rp_id user = do
    result ← create rp_id user
    creds ← list rp_id
    sig ← sign result.credential_id
    del ← delete result.credential_id
    return (record {
      credential_id = result.credential_id;
      hash_matches = check_auth_data rp_id result.auth_data;
      credentials = length creds;
      signature_bytes = length (decoded sig.signature);
      deleted = del.deleted;
    })

  unfoldable pub cmd_make_credential : List Text → Exec Process Stop Summary
  unfolding connected parse_session_nonce make
  cmd_make_credential args p =
      let rp_id = text_or "example.com" (flag args (codes "--rp-id")) in
      let user = text_or "user@example.com" (flag args (codes "--user")) in
      connected (make rp_id user) (parse_session_nonce args p)
