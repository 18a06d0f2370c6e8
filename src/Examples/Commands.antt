-- ===== src/Examples/Commands.antt =====
-- Runs of the command line, of its arguments and of the log filter.
use kee_pass_key_win.Prelude.{◌⊎◌, false, err, is_empty, trim}
use kee_pass_key_win.Tracing.{TracingExternals, active, init_tracing}
use kee_pass_key_win.Tracing.Routes.{Routed, init_tracing-routes, starts_with_error}
use kee_pass_key_win.Prelude.{
  ◌+◌, true, Option, none, some, List, [], ◌∷◌, Text, codes, ok, ◌≡◌, ◌↔◌, refl, to_option, eq_text,
  arith, if◌then◌else◌,
}
use kee_pass_key_win.World.{RegReply}
use kee_pass_key_win.World.Counts.{lines_sent}
use kee_pass_key_win.Ipc.Client.{
  call, connect, connect_from, handshake, read_response, recv_line, send_line, try_connect,
}
use kee_pass_key_win.OpSignKey.{get_op_sign_pub_key_bytes_for_hello}
use kee_pass_key_win.Registry.{read_reply, reg_sz}
use kee_pass_key_win.Utf16.{from_utf16}
use kee_pass_key_win.LogFilter.{parse}
use kee_pass_key_win.LogFilter.Stability.{parse_idem}
use kee_pass_key_win.CommandLine.{cmd_make_credential}
use kee_pass_key_win.CommandLine.Dispatch.{dispatch}
use kee_pass_key_win.CommandLine.Agreement.{nonce_of_reply-read_reply}
use kee_pass_key_win.CommandLine.Arguments.{make_credential}
use kee_pass_key_win.CommandLine.Bounds.{IsCommand, cmd_make_credential-IsCommand}
use kee_pass_key_win.CommandLine.Exit.{dispatch-Fulfilled}
use kee_pass_key_win.CommandLine.Nonce.{nonce_of_reply}
use kee_pass_key_win.CommandLine.Outside.{CommandExternals}
use kee_pass_key_win.Examples.Sample.{Value, sample, with_pipe}

-- A plugin that answers every call, and a registry with the nonce "A".
abbrev commands : CommandExternals Value
commands = record {
  base = sample;
  reg_open_key = λ h. 0;
  reg_query_value = λ h. record { status = 0; value_type = 1; cb = 4; buf = 65 ∷ 0 ∷ [] };
  runtime = ok tt;
  server_runtime = ok tt;
  session = some 1;
  class_register = λ h. ok 9;
  class_resume = λ h. ok tt;
  class_register_refs = λ h. 1;
  class_revoke_refs = λ c h. 1;
  create_to_string = λ r. ok (codes "create");
  list_to_string = λ r. ok (codes "list");
  sign_to_string = λ r. ok (codes "sign");
  delete_to_string = λ r. ok (codes "delete");
  created_from_value =
      λ v. ok (record { credential_id = codes "c"; public_key_cose = []; auth_data = codes "d" });
  credentials_from_value = λ v. ok [];
  signature_from_value = λ v. ok (record { signature = codes "s" });
  deleted_from_value = λ v. ok (record { deleted = true });
}

abbrev arguments : List Text
arguments = codes "provider" ∷ codes "make-credential" ∷ codes "--user" ∷ codes "eve" ∷ []

make_example :
    let (r, q) = cmd_make_credential commands arguments (with_pipe 5) in
    IsCommand 5 0 (with_pipe 5) r q
make_example = cmd_make_credential-IsCommand commands arguments (with_pipe 5)

exit_example :
    lines_sent (dispatch commands make_credential arguments [] (with_pipe 5)).1.history
    ≡ lines_sent (with_pipe 5).history + 5
unfolding dispatch connect connect_from try_connect handshake get_op_sign_pub_key_bytes_for_hello
    call send_line recv_line read_response
exit_example = dispatch-Fulfilled commands make_credential arguments [] (with_pipe 5) refl

abbrev stored : RegReply
stored = record { status = 0; value_type = reg_sz; cb = 6; buf = 65 ∷ 66 ∷ 0 ∷ 7 ∷ [] }

agreement_example : nonce_of_reply stored ≡ to_option (read_reply stored)
unfolding from_utf16
agreement_example =
    nonce_of_reply-read_reply (65 ∷ 66 ∷ []) (7 ∷ []) 0 (65 ∷ 66 ∷ [])
      (omega arith, (omega arith, tt)) refl

abbrev no_check : Text → Option Text
no_check t = if eq_text t (codes "bad") then some (codes "no") else none

abbrev directives : Text
directives = (parse no_check (λ t. t) (codes " info,,bad , a=debug") (codes "X")).good_directives

filter_example :
    parse no_check (λ t. t) directives (codes "X")
    ≡ record { good_directives = directives; warnings = [] }
filter_example = parse_idem no_check (λ t. t) (codes " info,,bad , a=debug") (codes "X")

-- A log file that cannot be opened.
abbrev tracing : TracingExternals
tracing = record {
  log_level = some (codes "debug");
  log_file = some (codes "c");
  open_append = λ path. err (codes "denied");
  try_init = λ sink directives. true;
  check = no_check;
  debug = λ t. t;
  debug_path = λ o. [];
}

route_example :
    ((init_tracing tracing).outcome ≡ active (codes "c")
      ↔ Routed tracing
          (codes "c")
          (parse no_check
            (λ t. t)
            (codes "debug")
            (codes "KEEPASSKEYWIN_LOG_LEVEL")).good_directives)
    × (tracing.log_file ≡ some (codes "c")
        → is_empty (trim (codes "c")) ≡ false
        → ((init_tracing tracing).outcome ≡ active (codes "c"))
          ⊎ (starts_with_error (init_tracing tracing).lines ≡ true))
route_example = init_tracing-routes tracing (codes "c")
