-- ===== src/CommandLine/Outside.antt =====
-- What src/KeePassKeyWin.Provider/src/main.rs calls beside `Externals`: the registry key of the plugin,
-- tokio's runtime, and serde for the types of ctap/mod.rs.
use kee_pass_key_win.Prelude.{ℕ, Option, List, Text, Result}
use kee_pass_key_win.World.{Externals, History, RegReply, RpcRequest}
use kee_pass_key_win.ComServer.{ServerExternals}
use kee_pass_key_win.Ctap.{
  CreatePasskeyParams, CreatePasskeyResult, SignAssertionParams, SignAssertionResult,
  ListCredentialsParams, CredentialInfo, DeleteCredentialParams, DeleteCredentialResult,
}

pub record CommandExternals (V : Type 0) : Type 0 where
  pub base : Externals V
  pub reg_open_key : History → ℕ
  pub reg_query_value : History → RegReply
  pub runtime : Result Text (Unit {0})
  -- what `run_com_server` calls beside these
  pub server_runtime : Result Text (Unit {0})
  pub session : Option ℕ
  pub class_register : History → Result Text ℕ
  pub class_resume : History → Result Text (Unit {0})
  pub class_register_refs : History → ℕ
  pub class_revoke_refs : ℕ → History → ℕ
  pub create_to_string : RpcRequest CreatePasskeyParams → Result Text Text
  pub list_to_string : RpcRequest ListCredentialsParams → Result Text Text
  pub sign_to_string : RpcRequest SignAssertionParams → Result Text Text
  pub delete_to_string : RpcRequest DeleteCredentialParams → Result Text Text
  pub created_from_value : V → Result Text CreatePasskeyResult
  pub credentials_from_value : V → Result Text (List CredentialInfo)
  pub signature_from_value : V → Result Text SignAssertionResult
  pub deleted_from_value : V → Result Text DeleteCredentialResult

-- The part of them that the COM server knows.
abbrev pub server_of : {V : Type 0} → CommandExternals V → ServerExternals V
server_of x = record {
  base = x.base;
  build_runtime = x.server_runtime;
  session = x.session;
  register = x.class_register;
  resume = x.class_resume;
  register_refs = x.class_register_refs;
  revoke_refs = x.class_revoke_refs;
}
