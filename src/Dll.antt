-- ===== src/Dll.antt =====
-- Loading a library and resolving its symbols, as com/webauthn_ext.rs, com/webauthnplugin_ext.rs and
-- com/request_sig.rs of src/KeePassKeyWin.Provider/src do it.
use kee_pass_key_win.Prelude.{
  ℕ, Option, none, some, List, [], ◌∷◌, String, Text, Result, ok, err, Option-cases, inl, inr,
  arith,
}
use kee_pass_key_win.World.Aside.{IsMute, IsMute-refl, IsMute-trans}
use kee_pass_key_win.World.{Externals, Process, library_loaded, symbol_resolved, emit}

module _ {V : Type 0} (x : Externals V) where
  -- LoadLibraryW("webauthn.dll")
  unfoldable pub load_webauthn : Process → Result Text ℕ × Process
  load_webauthn p =
      (x.load_library p.history "webauthn.dll", emit (library_loaded "webauthn.dll") p)

  -- `try_get_proc`: GetProcAddress for one name
  unfoldable pub try_get_proc : ℕ → String → Process → Option ℕ × Process
  try_get_proc hmod name p = (x.get_proc_address p.history hmod name, emit (symbol_resolved name) p)

  -- `get_proc`: the first of the names that resolves, with that name. The error stands for the
  -- message that lists the names.
  unfoldable pub get_proc : ℕ → Text → List String → Process → Result Text (ℕ × String) × Process
  unfolding try_get_proc
  get_proc hmod message [] p = (err message, p)
  get_proc hmod message (name ∷ names) p =
      let (f, p') = try_get_proc hmod name p in
      elim f [ some a ↦ (ok (a, name), p') | none ↦ get_proc hmod message names p' ]

  pub load_webauthn-IsMute : (p : Process) → IsMute p (load_webauthn p).1
  unfolding load_webauthn
  load_webauthn-IsMute p = ground arith

  pub try_get_proc-IsMute :
      (hmod : ℕ) (name : String) (p : Process) → IsMute p (try_get_proc hmod name p).1
  unfolding try_get_proc
  try_get_proc-IsMute hmod name p = ground arith

  pub get_proc-IsMute :
      (hmod : ℕ) (message : Text) (names : List String) (p : Process)
      → IsMute p (get_proc hmod message names p).1
  unfolding get_proc
  get_proc-IsMute hmod message [] p = IsMute-refl p
  get_proc-IsMute hmod message (name ∷ names) p =
      let (f, q) = try_get_proc hmod name p in
      elim (Option-cases (try_get_proc hmod name p).0) [
        | inl e ↦
            rw (e, get_proc)
              (IsMute-trans (try_get_proc-IsMute hmod name p)
                (get_proc-IsMute hmod message names q))
        | inr (a, e) ↦ rw (e, get_proc) (try_get_proc-IsMute hmod name p)
      ]
