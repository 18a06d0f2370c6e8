-- ===== src/CommandLine/Dispatch.antt =====
-- `main` of src/KeePassKeyWin.Provider/src/main.rs: the choice of the command, and how the process ends.
use kee_pass_key_win.Prelude.{ℕ, none, some, List, [], Text, Result, ok, err, Exec, get_elem?}
use kee_pass_key_win.World.{Process}
use kee_pass_key_win.Registration.{cmd_register, cmd_unregister}
use kee_pass_key_win.CommandLine.Arguments.{
  Subcommand, plugin_activated, register, unregister, smoke, make_credential, unknown,
  parse_subcommand,
}
use kee_pass_key_win.ComServer as ComServer
use kee_pass_key_win.ComServer.{Message, Served, run_com_server}
use kee_pass_key_win.CommandLine.Outside.{CommandExternals, server_of}
use kee_pass_key_win.CommandLine.{Stop, cmd_smoke, cmd_make_credential}

-- How far `main` gets: to an exit code, to a panic, or into the wait for a message, as a COM server.
pub data Ended : Type 0 where
  exits : ℕ → Ended
  panics : Ended
  waits : Ended

-- The name of the command.
abbrev first_argument : List Text → Text
first_argument args = elim (get_elem? args 1) [ none ↦ [] | some t ↦ t ]

abbrev pub exit_code : {E A : Type 0} → Result E A → ℕ
exit_code (ok a) = 0
exit_code (err e) = 1

module _ {V : Type 0} (x : CommandExternals V) where
  -- `run_blocking_async`; 1 if the runtime does not start.
  unfoldable pub run_blocking_async : {A : Type 0} → Exec Process Stop A → Process → Ended × Process
  run_blocking_async f p = elim x.runtime [
    | err e ↦ (exits 1, p)
    | ok _ ↦ let (r, q) = f p in (exits (exit_code r), q)
  ]

  -- `run_register` and `run_unregister`
  unfoldable pub run_command : Exec Process Text (Unit {0}) → Process → Ended × Process
  run_command f p = let (r, q) = f p in (exits (exit_code r), q)

  unfoldable pub run_register : Process → Ended × Process
  unfolding run_command cmd_register
  run_register p = run_command (cmd_register x.base) p

  unfoldable pub run_unregister : Process → Ended × Process
  unfolding run_command cmd_unregister
  run_unregister p = run_command (cmd_unregister x.base) p

  -- The server's own `exit(0)` is that of the program.
  abbrev pub ended_server : Served × Process → Ended × Process
  ended_server (ComServer.panicked message, q) = (panics, q)
  ended_server (ComServer.waits factory, q) = (waits, q)
  ended_server (ComServer.exits left, q) = (exits 0, q)

  unfoldable pub run_plugin_activated : List Message → Process → Ended × Process
  unfolding run_com_server
  run_plugin_activated messages p = ended_server (run_com_server (server_of x) messages p)

  -- The messages are those that come to a COM server.
  unfoldable pub dispatch : Subcommand → List Text → List Message → Process → Ended × Process
  unfolding run_register run_unregister run_blocking_async cmd_smoke cmd_make_credential
      run_plugin_activated
  dispatch plugin_activated args messages p = run_plugin_activated messages p
  dispatch register args messages p = run_register p
  dispatch unregister args messages p = run_unregister p
  dispatch smoke args messages p = run_blocking_async (cmd_smoke x args) p
  dispatch make_credential args messages p = run_blocking_async (cmd_make_credential x args) p
  dispatch unknown args messages p = (exits 1, p)

  -- `main` after `init_tracing`.
  unfoldable pub main : List Text → List Message → Process → Ended × Process
  unfolding parse_subcommand dispatch
  main args messages p = dispatch (parse_subcommand (first_argument args)) args messages p
