-- ===== src/Registration/Laws.antt =====
-- Registering and unregistering the authenticator: what is called, what is freed, what is reported.
use kee_pass_key_win.Prelude.{
  ℕ, ◌+◌, Bool, true, false, some, ok, ◌∷◌, ◌≡◌, ◌⊎◌, ◌↔◌, arith, count_if, ◌==◌, if◌then◌else◌,
}
use kee_pass_key_win.World.{
  WebauthnBindings, BufferReply, Externals, Process, Event, History, authenticator_added,
  authenticator_removed, add_response_freed, emit,
}
use kee_pass_key_win.Hresult.{is_err, s_ok}
use kee_pass_key_win.World.Counts.{uninitialized}
use kee_pass_key_win.Registration.{cmd_register, cmd_unregister}
use kee_pass_key_win.Registration.{hr_not_found, hr_file_not_found, options, unregister}

abbrev is_added : Event → Bool
is_added (authenticator_added hr ptr) = true
is_added _ = false

abbrev is_removed : Event → Bool
is_removed authenticator_removed = true
is_removed _ = false

-- Calls of Add, and calls of Remove.
abbrev pub adds : History → ℕ
adds = count_if is_added

abbrev pub removes : History → ℕ
removes = count_if is_removed

module _ {V : Type 0} (x : Externals V) (b : WebauthnBindings) (p : Process)
    (loaded : p.bindings ≡ some (ok b)) where
  abbrev pub first : BufferReply
  first = x.call_add_authenticator p.history b.add (options x)

  -- A call of Add and the free of the response that it hands out, if it hands out one.
  abbrev pub add_events : BufferReply → History → History
  add_events r h =
      let called = authenticator_added r.hr r.out.ptr ∷ h in
      if r.out.ptr == 0 then called else add_response_freed r.out.ptr ∷ called

  -- The answer of an Add that follows a Remove.
  abbrev pub second : BufferReply
  second =
      x.call_add_authenticator (authenticator_removed ∷ add_events first p.history) b.add
        (options x)

  -- With resolved entrypoints, unregistration calls Remove once, and succeeds exactly if it answers
  -- S_OK or that there was nothing to remove: unregistering twice is no error.
  pub unregister-idempotent :
      let (r, q) = unregister x p in
      let hr = x.call_remove_authenticator p.history b.remove in
      (q ≡ emit authenticator_removed p)
      × ((r ≡ ok tt) ↔ ((hr ≡ s_ok) ⊎ (hr ≡ hr_not_found) ⊎ (hr ≡ hr_file_not_found)))
  unfolding unregister
  unregister-idempotent = (ground arith, ground arith)

module _ {V : Type 0} (x : Externals V) (b : WebauthnBindings) (p : Process)
    (loaded : p.bindings ≡ some (ok b)) where
  -- Both commands call CoUninitialize exactly once if CoInitializeEx succeeded, whatever becomes of
  -- the command, and not at all if it failed; then nothing is registered or removed either.
  pub cmd-com :
      let once : ℕ = if is_err (x.co_initialize p.history) then 0 else 1 in
      (uninitialized (cmd_register x p).1.history ≡ uninitialized p.history + once)
      × (uninitialized (cmd_unregister x p).1.history ≡ uninitialized p.history + once)
      × (is_err (x.co_initialize p.history) ≡ true
          → (adds (cmd_register x p).1.history ≡ adds p.history)
            × (removes (cmd_unregister x p).1.history ≡ removes p.history))
  unfolding cmd_register cmd_unregister
  cmd-com = (ground arith, ground arith, λ h. (ground arith, ground arith))
