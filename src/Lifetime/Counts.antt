-- ===== src/Lifetime/Counts.antt =====
-- No object is ever freed, so a server that was activated once never ends by itself.
use kee_pass_key_win.Prelude.{get_elem?-lt, length-set, subst, sym, refl, Option-cases, inl, inr}
use kee_pass_key_win.Prelude.{
  ℕ, zero, suc, ◌+◌, ◌-◌, ◌<◌, ◌^◌, none, some, List, [], ◌∷◌, ◌≡◌, get_elem?, set, length, arith,
}
use kee_pass_key_win.Prelude.{without}
use kee_pass_key_win.World.{Guid, Externals, Process, fresh_process}
use kee_pass_key_win.World.Counts.{server_add_refs, server_releases}
use kee_pass_key_win.ComObject.{
  Chosen, ClassFactory, ComObject, new_object, add_ref, cf_create_instance, cf_lock_server,
  choose_state, hand_over, query_interface, release,
}
use kee_pass_key_win.Server.References.{Uncounted, uncounted, choose_state-Uncounted}
use kee_pass_key_win.Server.Traced.{
  reconcile_vault_with_os-traced, make_credential-traced, get_assertion-traced,
  cancel_operation-traced, get_lock_status-traced,
}
use kee_pass_key_win.Lifetime.{
  Lent, Life, Method, credential, assertion, cancellation, lock_status, invoke, referred,
  after_activation, Call, Calls, activated, invoked, reconciled, referenced, queried, released,
  locked, unlocked, start, next,
}

-- An object counts one reference more than Windows holds.
abbrev pub Leaks : Lent → Type 0
Leaks l = elim l.object [ none ↦ ⊥ | some o ↦ (o.ref_count ≡ l.held + 1) × (l.held < 2 ^ 32 - 1) ]

abbrev pub AllLeak : List Lent → Type 0
AllLeak [] = Unit
AllLeak (l ∷ ls) = Leaks l × AllLeak ls

AllLeak-get : (ls : List Lent) (i : ℕ) (l : Lent) → AllLeak ls → get_elem? ls i ≡ some l → Leaks l
AllLeak-get [] i l h e = ground arith
AllLeak-get (k ∷ ls) zero l h e = ground arith
AllLeak-get (k ∷ ls) (suc i) l h e = AllLeak-get ls i l h.1 e

AllLeak-set : (ls : List Lent) (i : ℕ) (l : Lent) → AllLeak ls → Leaks l → AllLeak (set ls i l)
AllLeak-set [] i l h k = tt
AllLeak-set (m ∷ ls) zero l h k = (k, h.1)
AllLeak-set (m ∷ ls) (suc i) l h k = (h.0, AllLeak-set ls i l h.1 k)

-- The process's count is that of the objects and locks.
pub record IsCounted (s : Life) : Type 0 where
  pub leak : AllLeak s.lent
  pub count :
      server_add_refs s.process.history
      ≡ server_releases s.process.history + length s.lent + s.locks

hand_over-IsCounted :
    (riid : Guid) (c : Chosen) (s : Life)
    → IsCounted s
    → IsCounted (after_activation (hand_over riid (c, s.process)) s)
unfolding hand_over new_object query_interface add_ref
hand_over-IsCounted riid c s h = ground arith

-- What takes and gives back no reference to the process.
moved :
    (s : Life) (q : Process) (tasks : List ℕ)
    → IsCounted s
    → Uncounted s.process q
    → IsCounted (record s { process = q; tasks = tasks })
moved s q tasks h u = record { leak = h.leak; count = omega (arith, u.added, u.released, h.count) }

-- One object's references change.
changed :
    (s : Life) (i : ℕ) (l : Lent)
    → IsCounted s
    → Leaks l
    → IsCounted (record s { lent = set s.lent i l })
changed s i l h k = record {
  leak = AllLeak-set s.lent i l h.leak k;
  count = omega (arith, h.count, length-set s.lent i l);
}

module _ (o : ComObject) (held : ℕ) where
  add_ref-Leaks :
      held < 2 ^ 32 - 2
      → Leaks (record { object = some o; held = held })
      → Leaks (record { object = some (add_ref o).1; held = held + 1 })
  unfolding add_ref
  add_ref-Leaks small h = ground arith

  query_interface-Leaks :
      (riid : Guid)
      → held < 2 ^ 32 - 2
      → Leaks (record { object = some o; held = held })
      → Leaks (referred held (query_interface riid o))
  unfolding query_interface add_ref
  query_interface-Leaks riid small h = ground arith

  -- The release of a reference that was given leaves the object, and does not touch the process.
  release-Leaks :
      (p : Process)
      → Leaks (record { object = some o; held = suc held })
      → Leaks (record { object = (release o p).0.1; held = held }) × ((release o p).1 ≡ p)
  unfolding release
  release-Leaks p h = ground arith

module _ {V : Type 0} (x : Externals V) where
  invoke-Uncounted : (arc : ℕ) (m : Method) (p : Process) → Uncounted p (invoke x arc m p)
  unfolding invoke
  invoke-Uncounted arc (credential req) p =
      make_credential-traced x Uncounted (uncounted x) arc req p
  invoke-Uncounted arc (assertion req) p = get_assertion-traced x Uncounted (uncounted x) arc req p
  invoke-Uncounted arc (cancellation txn) p =
      cancel_operation-traced x Uncounted (uncounted x) arc txn p
  invoke-Uncounted arc lock_status p = get_lock_status-traced x Uncounted (uncounted x) arc p

  cf_create_instance-IsCounted :
      (f : ClassFactory) (riid : Guid) (s : Life)
      → IsCounted s
      → IsCounted (after_activation (cf_create_instance x f riid s.process) s)
  unfolding cf_create_instance
  cf_create_instance-IsCounted f riid s h =
      let (c, q) = choose_state x f.session_id s.process in
      hand_over-IsCounted riid c (record s { process = q })
        (moved s q s.tasks h (choose_state-Uncounted x f.session_id s.process))

  Call-IsCounted : (s t : Life) → Call x s t → IsCounted s → IsCounted t
  unfolding cf_lock_server
  Call-IsCounted s _ (activated f riid) h = cf_create_instance-IsCounted f riid s h
  Call-IsCounted s _ (invoked i o held m e) h =
      moved s _ s.tasks h (invoke-Uncounted o.state m s.process)
  Call-IsCounted s _ (reconciled i arc e) h =
      moved s _ (without i s.tasks) h
        (reconcile_vault_with_os-traced x Uncounted (uncounted x) arc s.process)
  Call-IsCounted s _ (referenced i o held e small) h =
      changed s i _ h (add_ref-Leaks o held small (AllLeak-get s.lent i _ h.leak e))
  Call-IsCounted s _ (queried i o held riid e small) h =
      changed s i _ h (query_interface-Leaks o held riid small (AllLeak-get s.lent i _ h.leak e))
  Call-IsCounted s _ (released i o held e) h =
      let (leaks, same) = release-Leaks o held s.process (AllLeak-get s.lent i _ h.leak e) in
      let l : Lent = record { object = (release o s.process).0.1; held = held } in
      subst (λ p. IsCounted (record s { process = p; lent = set s.lent i l })) (sym same)
        (changed s i l h leaks)
  Call-IsCounted s _ locked h = record { leak = h.leak; count = omega (arith, h.count) }
  Call-IsCounted s _ (unlocked n e) h = record { leak = h.leak; count = omega (arith, h.count, e) }

  Calls-IsCounted : (s t : Life) → Calls x s t → IsCounted s → IsCounted t
  Calls-IsCounted s _ start h = h
  Calls-IsCounted s _ (next t u before c) h = Call-IsCounted t u c (Calls-IsCounted s t before h)

abbrev pub fresh_life : Life
fresh_life = record { process = fresh_process; lent = []; locks = 0; tasks = [] }

module _ {V : Type 0} (x : Externals V) (s : Life) (run : Calls x fresh_life s) where
  -- The process's count is the number of all objects ever handed out and of the locks held.
  pub Calls-count :
      server_add_refs s.process.history
      ≡ server_releases s.process.history + length s.lent + s.locks
  Calls-count = (Calls-IsCounted x fresh_life s run (record { leak = tt; count = refl })).count

  -- However Windows uses the objects, as long as it releases no reference and no lock that it was not
  -- given: no object is ever freed, also when Windows holds no reference to it any more; and once one
  -- was handed out, the process's count does not come back to 0.
  pub Calls-leak :
      (i : ℕ) (l : Lent)
      → get_elem? s.lent i ≡ some l
      → ((o : ComObject) × (l.object ≡ some o) × (o.ref_count ≡ l.held + 1))
        × (server_releases s.process.history < server_add_refs s.process.history)
  Calls-leak i l e =
      let h = Calls-IsCounted x fresh_life s run (record { leak = tt; count = refl }) in
      let leaks = AllLeak-get s.lent i l h.leak e in
      let some_lent = get_elem?-lt s.lent i e in
      (
        elim (Option-cases l.object) [
          | inl f ↦ ground (arith, leaks, f)
          | inr (o, f) ↦ (o, f, ground (arith, leaks, f))
        ],
        omega (arith, Calls-count, some_lent),
      )
