-- ===== src/ComServer.antt =====
-- `run_com_server` of src/KeePassKeyWin.Provider/src/com/exe_server.rs: the class factory at COM, and the
-- message loop. What a message does while it is dispatched is a parameter, since any call may come of it.
-- The thread's number, which is stored for diagnosis, is left out.
pub mod Shutdown
pub mod Threads
pub mod Composition
use kee_pass_key_win.Prelude.{
  ℕ, suc, zero, ℤ, pos, minus, eq_ℤ, ◌||◌, Bool, true, false, Option, none, some, List, [], ◌∷◌,
  String, Text, Result, ok, err, if◌then◌else◌,
}
use kee_pass_key_win.World.{
  Externals, History, Process, class_registered, class_resumed, class_revoked, com_initialized,
  com_uninitialized, emit,
}
use kee_pass_key_win.Hresult.{is_err}
use kee_pass_key_win.ComObject.{ClassFactory, cf_add_ref, cf_release, new_factory}

pub record ServerExternals (V : Type 0) : Type 0 where
  pub base : Externals V
  pub build_runtime : Result Text (Unit {0})
  -- ProcessIdToSessionId, which may fail
  pub session : Option ℕ
  pub register : History → Result Text ℕ
  pub resume : History → Result Text (Unit {0})
  -- how many references to the factory CoRegisterClassObject takes when it succeeds, and how many
  -- CoRevokeClassObject gives back for a cookie, none if it fails
  pub register_refs : History → ℕ
  pub revoke_refs : ℕ → History → ℕ

-- A message: what GetMessageW returns for it, and what its dispatch does.
pub record Message : Type 0 where
  pub result : ℤ
  pub dispatch : ClassFactory → Process → ClassFactory × Process

-- A server that Windows may call, with the cookie of its class.
pub record Serving : Type 0 where
  pub factory : ClassFactory
  pub cookie : ℕ

-- How far it gets: to a panic, into the wait for a message, or to `exit(0)` with what is left of the
-- factory.
pub data Served : Type 0 where
  panicked : String → Served
  waits : ClassFactory → Served
  exits : Option ClassFactory → Served

abbrev pub get_session_id : Option ℕ → ℕ
get_session_id none = 0
get_session_id (some sid) = sid

-- The release of a reference by its drop.
abbrev pub drop_reference : Option ClassFactory → Option ClassFactory
drop_reference none = none
drop_reference (some f) = (cf_release f).1

-- References to the factory that Windows takes, and that it gives back.
unfoldable pub take_references : ℕ → ClassFactory → ClassFactory
unfolding cf_add_ref
take_references zero f = f
take_references (suc n) f = take_references n (cf_add_ref f).1

unfoldable pub give_back_references : ℕ → Option ClassFactory → Option ClassFactory
unfolding cf_release
give_back_references zero o = o
give_back_references (suc n) o = give_back_references n (drop_reference o)

-- The loop over the messages that come: whether it ended, rather than wait for the next one.
unfoldable pub pump : List Message → ClassFactory → Process → Bool × ClassFactory × Process
pump [] f p = (false, f, p)
pump (m ∷ ms) f p =
    let (g, q) = m.dispatch f p in
    let rest = pump ms g q in
    if eq_ℤ m.result (pos 0) || eq_ℤ m.result (minus 1) then (true, f, p) else rest

module _ {V : Type 0} (x : ServerExternals V) where
  -- CoRevokeClassObject, whose failure is discarded; the drop of our reference; CoUninitialize.
  unfoldable pub shutdown : ℕ → ClassFactory → Process → Option ClassFactory × Process
  unfolding give_back_references cf_release
  shutdown cookie f p = (
    drop_reference (give_back_references (x.revoke_refs cookie p.history) (some f)),
    emit com_uninitialized (emit (class_revoked cookie) p),
  )

  -- CoResumeClassObjects
  abbrev resumed : Serving → Process → Result String Serving × Process
  resumed s p = elim (x.resume p.history) [
    | err e ↦ (err "CoResumeClassObjects failed", emit class_resumed p)
    | ok _ ↦ (ok s, emit class_resumed p)
  ]

  -- CoRegisterClassObject, which takes references to the factory.
  abbrev registered : ClassFactory → Process → Result String Serving × Process
  registered f p = elim (x.register p.history) [
    | err e ↦ (err "CoRegisterClassObject failed", emit class_registered p)
    | ok cookie ↦
        resumed
          (record { factory = take_references (x.register_refs p.history) f; cookie = cookie })
          (emit class_registered p)
  ]

  -- Up to the message loop.
  unfoldable pub start_server : Process → Result String Serving × Process
  unfolding new_factory take_references
  start_server p = elim x.build_runtime [
    | err e ↦ (err "tokio runtime", p)
    | ok _ ↦
        let p1 = emit com_initialized p in
        if is_err (x.base.co_initialize p.history)
        then (err "CoInitializeEx(STA) failed", p1)
        else registered (new_factory (get_session_id x.session)) p1
  ]

  unfoldable pub conclude_pump : ℕ → Bool × ClassFactory × Process → Served × Process
  unfolding shutdown
  conclude_pump cookie (false, f, p) = (waits f, p)
  conclude_pump cookie (true, f, p) = let (left, q) = shutdown cookie f p in (exits left, q)

  unfoldable pub serve : List Message → Result String Serving × Process → Served × Process
  unfolding pump conclude_pump
  serve messages (err e, p) = (panicked e, p)
  serve messages (ok s, p) = conclude_pump s.cookie (pump messages s.factory p)

  unfoldable pub run_com_server : List Message → Process → Served × Process
  unfolding start_server serve
  run_com_server messages p = serve messages (start_server p)
