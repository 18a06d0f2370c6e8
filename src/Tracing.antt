-- ===== src/Tracing.antt =====
-- `init_tracing` of src/KeePassKeyWin.Provider/src/main.rs: where the log goes. The crate
-- tracing-subscriber and the file system are parameters.
pub mod Routes
use kee_pass_key_win.Prelude.{
  Bool, Option, none, some, List, [], ◌∷◌, ◌++◌, Text, codes, Result, ok, err, trim, is_empty,
  if◌then◌else◌,
}
use kee_pass_key_win.LogFilter.{parse}

pub data FileRouteOutcome : Type 0 where
  not_requested : FileRouteOutcome
  active : Text → FileRouteOutcome
  failed_open : Text → Text → FileRouteOutcome
  subscriber_already_installed : Option Text → FileRouteOutcome

pub data Sink : Type 0 where
  stderr : Sink
  file : Text → Sink

pub data Line : Type 0 where
  info error : Text → Line

-- The environment, the file system, tracing-subscriber and `{:?}`. `try_init` is whether a subscriber
-- that writes the directives' lines to the sink could be installed.
pub record TracingExternals : Type 0 where
  pub log_level : Option Text
  pub log_file : Option Text
  pub open_append : Text → Result Text (Unit {0})
  pub try_init : Sink → Text → Bool
  pub check : Text → Option Text
  pub debug : Text → Text
  pub debug_path : Option Text → Text

-- What is left: the outcome, and the lines logged.
pub record Started : Type 0 where
  pub outcome : FileRouteOutcome
  pub lines : List Line

abbrev pub or_blank : Option Text → Text
or_blank none = []
or_blank (some t) = t

abbrev pub each_error : List Text → List Line
each_error [] = []
each_error (w ∷ ws) = error w ∷ each_error ws

module _ (x : TracingExternals) where
  unfoldable pub open_route : Text → Text → FileRouteOutcome
  open_route path directives = elim (x.open_append path) [
    | ok _ ↦
        if x.try_init (file path) directives
        then active path
        else subscriber_already_installed (some path)
    | err e ↦
        if x.try_init stderr directives
        then failed_open path e
        else subscriber_already_installed (some path)
  ]

  unfoldable pub default_route : Text → FileRouteOutcome
  default_route directives =
      if x.try_init stderr directives then not_requested else subscriber_already_installed none

  unfoldable pub route : Option Text → Text → FileRouteOutcome
  unfolding open_route default_route trim
  route none directives = default_route directives
  route (some path) directives =
      if is_empty (trim path) then default_route directives else open_route path directives

  unfoldable pub diagnostics : FileRouteOutcome → List Line
  diagnostics not_requested = []
  diagnostics (active path) =
      info (codes "[trace] file logging enabled — KEEPASSKEYWIN_LOG_FILE=" ++ path) ∷ []
  diagnostics (failed_open path e) =
      error (
        codes "[trace] failed to open KEEPASSKEYWIN_LOG_FILE="
        ++ path
        ++ codes ": "
        ++ e
        ++ codes " — falling back to stderr (closed handle under windows_subsystem=windows)")
      ∷ []
  diagnostics (subscriber_already_installed intended) =
      error (
        codes "[trace] tracing subscriber was already installed; init_tracing is a no-op. "
        ++ codes "Intended file path: "
        ++ x.debug_path intended
        ++ codes ". Existing subscriber stays in effect.")
      ∷ []

  unfoldable pub init_tracing : Started
  unfolding parse route diagnostics
  init_tracing =
      let parsed = parse x.check x.debug (or_blank x.log_level) (codes "KEEPASSKEYWIN_LOG_LEVEL") in
      let outcome = route x.log_file parsed.good_directives in
      record { outcome = outcome; lines = diagnostics outcome ++ each_error parsed.warnings }
