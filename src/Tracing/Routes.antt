-- ===== src/Tracing/Routes.antt =====
-- When the log goes to a file, and what is said when it does not.
use kee_pass_key_win.Prelude.{codes, ◌++◌, ◌∙◌, sym, ap, Bool}
use kee_pass_key_win.Prelude.{
  ◌⊎◌, ◌↔◌, true, false, Option, none, some, List, ◌∷◌, Text, ok, ◌≡◌, arith, trim, is_empty, ◌≢◌,
  inl, inr, Bool, Bool-cases,
}
use kee_pass_key_win.LogFilter.{parse}
use kee_pass_key_win.Tracing.{
  Line, TracingExternals, active, diagnostics, default_route, error, file, init_tracing, open_route,
  route, each_error, or_blank,
}

-- A subscriber that writes to a file was asked for, and could be installed.
abbrev pub Routed : TracingExternals → Text → Text → Type 0
Routed x path directives =
    (x.log_file ≡ some path)
    × (is_empty (trim path) ≡ false)
    × (x.open_append path ≡ ok tt)
    × (x.try_init (file path) directives ≡ true)

abbrev pub starts_with_error : List Line → Bool
starts_with_error (error t ∷ ls) = true
starts_with_error _ = false

module _ (x : TracingExternals) where
  open_route-active :
      (path p directives : Text)
      → (open_route x path directives ≡ active p)
        ↔ ((path ≡ p) × (x.open_append p ≡ ok tt) × (x.try_init (file p) directives ≡ true))
  unfolding open_route
  open_route-active path p directives = ground arith

  default_route-inactive : (p directives : Text) → default_route x directives ≢ active p
  unfolding default_route
  default_route-inactive p directives = ground arith

  route-active :
      (o : Option Text) (p directives : Text)
      → (route x o directives ≡ active p) ↔ (
          (o ≡ some p)
          × (is_empty (trim p) ≡ false)
          × (x.open_append p ≡ ok tt)
          × (x.try_init (file p) directives ≡ true))
  unfolding route
  route-active none p directives = ground (arith, default_route-inactive p directives)
  route-active (some path) p directives = elim (Bool-cases (is_empty (trim path))) [
    | inl e ↦ (
      λ h. absurd (default_route-inactive p directives (ground (arith, h, e))),
      λ k.
          let same : path ≡ p = ground (arith, k.0) in
          ground (arith, e, k.1, ap (λ t. is_empty (trim t)) same),
    )
    | inr e ↦ (
      λ h.
          let (same, opened, installed) =
            (open_route-active path p directives).0 (ground (arith, h, e)) in
          (ap some same, sym (ap (λ t. is_empty (trim t)) same) ∙ e, opened, installed),
      λ k.
          let same : path ≡ p = ground (arith, k.0) in
          let sent = (open_route-active path p directives).1 (same, k.2, k.3) in
          ground (arith, e, sent),
    )
  ]

  open_route-error :
      (path directives : Text) (ls : List Line)
      → let o = open_route x path directives in
        (o ≡ active path) ⊎ (starts_with_error (diagnostics x o ++ ls) ≡ true)
  unfolding open_route diagnostics
  open_route-error path directives ls = ground arith

  -- The log goes to a file exactly if its path is set and not blank, the file opens and the subscriber
  -- for it can be installed; and if a path is set and not blank and the log does not go there, the
  -- first line that is logged is an error.
  pub init_tracing-routes :
      (path : Text)
      → let directives =
          (parse x.check x.debug
            (or_blank x.log_level)
            (codes "KEEPASSKEYWIN_LOG_LEVEL")).good_directives in
        ((init_tracing x).outcome ≡ active path ↔ Routed x path directives)
        × (x.log_file ≡ some path
            → is_empty (trim path) ≡ false
            → ((init_tracing x).outcome ≡ active path)
              ⊎ (starts_with_error (init_tracing x).lines ≡ true))
  unfolding init_tracing route
  init_tracing-routes path =
      let directives =
        (parse x.check x.debug (or_blank x.log_level)
          (codes "KEEPASSKEYWIN_LOG_LEVEL")).good_directives in
      (
        route-active x.log_file path directives,
        λ set filled.
            let lines =
              each_error
                (parse x.check x.debug (or_blank x.log_level)
                  (codes "KEEPASSKEYWIN_LOG_LEVEL")).warnings in
            ground (arith, set, filled, open_route-error path directives lines),
      )
