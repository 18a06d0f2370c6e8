-- ===== src/UserVerification/Symbols.antt =====
-- Which symbols were resolved, as src/KeePassKeyWin.Provider/src/com/webauthn_ext.rs tells for its
-- diagnostics. Both functions load the bindings first.
use kee_pass_key_win.Prelude.{Option, none, some, String, Text, Result, ok, err, ◌≡◌, arith}
use kee_pass_key_win.World.{Externals, Process, WebauthnBindings}
use kee_pass_key_win.UserVerification.{bindings}

-- `BINDINGS.get()`, if the bindings are there.
abbrev name_of : (WebauthnBindings → String) → Option (Result Text WebauthnBindings) → Option String
name_of f none = none
name_of f (some (err e)) = none
name_of f (some (ok b)) = some (f b)

module _ {V : Type 0} (x : Externals V) where
  unfoldable pub resolved_add_symbol_name : Process → Option String × Process
  unfolding bindings
  resolved_add_symbol_name p =
      let p1 = (bindings x p).1 in (name_of (λ b. b.add_symbol_name) p1.bindings, p1)

  unfoldable pub resolved_perform_uv_symbol_name : Process → Option String × Process
  unfolding bindings
  resolved_perform_uv_symbol_name p =
      let p1 = (bindings x p).1 in (name_of (λ b. b.perform_uv_symbol_name) p1.bindings, p1)

  -- Asked again, either gives the same name without a call of the system.
  resolved_names-cached :
      (p : Process)
      → let (add, q) = resolved_add_symbol_name p in
        let (uv, r) = resolved_perform_uv_symbol_name q in
        (r ≡ q)
        × (resolved_add_symbol_name r ≡ (add, r))
        × (resolved_perform_uv_symbol_name r ≡ (uv, r))
  unfolding resolved_add_symbol_name resolved_perform_uv_symbol_name bindings
  resolved_names-cached p = ground arith
