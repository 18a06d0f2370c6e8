-- ===== src/CommandLine/Exit.antt =====
-- What exit code 0 of src/KeePassKeyWin.Provider/src/main.rs says.
use kee_pass_key_win.Prelude.{◌+◌, List, Text, Option, refl, ok, ◌≡◌, arith, Result-cases, inl, inr}
use kee_pass_key_win.World.{Process}
use kee_pass_key_win.World.Counts.{lines_sent}
use kee_pass_key_win.Registration.{cmd_register, cmd_unregister}
use kee_pass_key_win.CommandLine.{cmd_smoke, cmd_make_credential}
use kee_pass_key_win.CommandLine.Dispatch.{
  exits, dispatch, run_command, run_register, run_unregister, run_blocking_async,
  run_plugin_activated, ended_server,
}
use kee_pass_key_win.CommandLine.Arguments.{
  Subcommand, plugin_activated, register, unregister, smoke, make_credential, unknown,
}
use kee_pass_key_win.CommandLine.Bounds.{cmd_smoke-IsCommand, cmd_make_credential-IsCommand}
use kee_pass_key_win.CommandLine.Outside.{CommandExternals, server_of}
use kee_pass_key_win.ComObject.{ClassFactory}
use kee_pass_key_win.ComServer as ComServer
use kee_pass_key_win.ComServer.{Message, Served, run_com_server}

module _ {V : Type 0} (x : CommandExternals V) where
  -- What each command has done when it succeeds.
  abbrev pub Fulfilled : Subcommand → List Message → Process → Process → Type 0
  Fulfilled plugin_activated messages p q =
      (left : Option ClassFactory) × (run_com_server (server_of x) messages p
        ≡ (ComServer.exits left, q))
  Fulfilled register messages p q = cmd_register x.base p ≡ (ok tt, q)
  Fulfilled unregister messages p q = cmd_unregister x.base p ≡ (ok tt, q)
  Fulfilled smoke messages p q = lines_sent q.history ≡ lines_sent p.history + 1
  Fulfilled make_credential messages p q = lines_sent q.history ≡ lines_sent p.history + 5
  Fulfilled unknown messages p q = ⊥

  ended_server-exits :
      (r : Served × Process)
      → (ended_server x r).0 ≡ exits 0
      → (left : Option ClassFactory) × (r ≡ (ComServer.exits left, (ended_server x r).1))
  ended_server-exits (ComServer.panicked m, q) e = ground (arith, e)
  ended_server-exits (ComServer.waits f, q) e = ground (arith, e)
  ended_server-exits (ComServer.exits left, q) e = (left, refl)

  -- The program exits with 0 only if it has done what its command asks for: `register` and `unregister`
  -- succeeded, `smoke` sent the hello and `make-credential` all five lines, and the COM server came to its own
  -- exit at the end of its message loop; without a command it never does.
  pub dispatch-Fulfilled :
      (sub : Subcommand) (args : List Text) (messages : List Message) (p : Process)
      → (dispatch x sub args messages p).0 ≡ exits 0
      → Fulfilled sub messages p (dispatch x sub args messages p).1
  unfolding dispatch run_register run_unregister run_command run_blocking_async run_plugin_activated
  dispatch-Fulfilled plugin_activated args messages p h =
      ended_server-exits (run_com_server (server_of x) messages p) h
  dispatch-Fulfilled register args messages p h = elim (Result-cases (cmd_register x.base p).0) [
    | inl (a, e) ↦ ground (arith, e)
    | inr (f, e) ↦ ground (arith, e, h)
  ]
  dispatch-Fulfilled unregister args messages p h =
      elim (Result-cases (cmd_unregister x.base p).0) [
        | inl (a, e) ↦ ground (arith, e)
        | inr (f, e) ↦ ground (arith, e, h)
      ]
  dispatch-Fulfilled smoke args messages p h = elim (Result-cases x.runtime) [
    | inl (a, e) ↦ elim (Result-cases (cmd_smoke x args p).0) [
      | inl (b, f) ↦ ground (arith, e, f, cmd_smoke-IsCommand x args p)
      | inr (b, f) ↦ ground (arith, e, f, h)
    ]
    | inr (f, e) ↦ ground (arith, e, h)
  ]
  dispatch-Fulfilled make_credential args messages p h = elim (Result-cases x.runtime) [
    | inl (a, e) ↦ elim (Result-cases (cmd_make_credential x args p).0) [
      | inl (b, f) ↦ ground (arith, e, f, cmd_make_credential-IsCommand x args p)
      | inr (b, f) ↦ ground (arith, e, f, h)
    ]
    | inr (f, e) ↦ ground (arith, e, h)
  ]
  dispatch-Fulfilled unknown args messages p h = ground arith
