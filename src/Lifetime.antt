-- ===== src/Lifetime.antt =====
-- The whole server between its start and its end: the process, the objects with the references that
-- Windows holds to them, the locks, and the background tasks that were spawned and did not run yet. Windows
-- calls `cf_create_instance` and `cf_lock_server` of src/KeePassKeyWin.Provider/src/com/exe_server.rs and
-- the methods of com/server.rs on any object that is not freed, and releases no reference that it was not
-- given, which is the rule of COM.
pub mod Counts
pub mod Refinement
pub mod States
pub mod Choices
pub mod Tasks
use kee_pass_key_win.Prelude.{
  ℕ, suc, ◌+◌, ◌-◌, ◌<◌, ◌^◌, Option, none, some, List, [], ◌∷◌, ◌≡◌, get_elem?, set, without, Bool,
  true, false,
}
use kee_pass_key_win.World.{Guid, Externals, Process}
use kee_pass_key_win.ComObject.{
  ClassFactory, ComObject, Created, add_ref, cf_create_instance, cf_lock_server, query_interface,
  release,
}
use kee_pass_key_win.Authenticator.{
  OperationRequest, make_credential, get_assertion, cancel_operation, get_lock_status,
}
use kee_pass_key_win.Reconciliation.{reconcile_vault_with_os}

-- An object, unless it was freed, and the references to it that were given to Windows.
pub record Lent : Type 0 where
  pub object : Option ComObject
  pub held : ℕ

-- What an activation lends: the object that it hands out counts as one reference.
abbrev pub lend : Option ComObject → List Lent → List Lent
lend none ls = ls
lend (some o) ls = record { object = some o; held = 1 } ∷ ls

abbrev pub referred : ℕ → ℕ × Bool × ComObject → Lent
referred held (hr, true, o) = record { object = some o; held = held + 1 }
referred held (hr, false, o) = record { object = some o; held = held }

-- The methods of IPluginAuthenticator, with what they are called with.
pub data Method : Type 0 where
  credential : OperationRequest → Method
  assertion : OperationRequest → Method
  cancellation : Guid → Method
  lock_status : Method

-- What a call of a method leaves of the process.
unfoldable pub invoke : {V : Type 0} → Externals V → ℕ → Method → Process → Process
unfolding make_credential get_assertion cancel_operation get_lock_status
invoke x arc (credential req) p = (make_credential x arc req p).1
invoke x arc (assertion req) p = (get_assertion x arc req p).1
invoke x arc (cancellation txn) p = (cancel_operation x arc txn p).1
invoke x arc lock_status p = (get_lock_status x arc p).1

-- The state for which a task was spawned, if there was one.
abbrev pub spawn : Option ℕ → List ℕ → List ℕ
spawn none tasks = tasks
spawn (some arc) tasks = arc ∷ tasks

pub record Life : Type 0 where
  pub process : Process
  pub lent : List Lent
  pub locks : ℕ
  pub tasks : List ℕ

-- The server after an activation.
abbrev pub after_activation : Created × Process → Life → Life
after_activation (created, q) s = record {
  process = q;
  lent = lend created.object s.lent;
  locks = s.locks;
  tasks = spawn created.spawned s.tasks;
}

-- One call of Windows, or the run of a task. Counts that would wrap around are left out.
pub data Call {V : Type 0} (x : Externals V) (s : Life) : Life → Type 0 where
  activated :
      (f : ClassFactory) (riid : Guid)
      → Call x s (after_activation (cf_create_instance x f riid s.process) s)
  invoked :
      (i : ℕ) (o : ComObject) (held : ℕ) (m : Method)
      → get_elem? s.lent i ≡ some (record { object = some o; held = held })
      → Call x s (record s { process = invoke x o.state m s.process })
  reconciled :
      (i arc : ℕ)
      → get_elem? s.tasks i ≡ some arc
      → Call x s (record s {
        process = reconcile_vault_with_os x arc s.process;
        tasks = without i s.tasks;
      })
  referenced :
      (i : ℕ) (o : ComObject) (held : ℕ)
      → get_elem? s.lent i ≡ some (record { object = some o; held = held })
      → held < 2 ^ 32 - 2
      → Call x s (record s {
        lent = set s.lent i (record { object = some (add_ref o).1; held = held + 1 });
      })
  queried :
      (i : ℕ) (o : ComObject) (held : ℕ) (riid : Guid)
      → get_elem? s.lent i ≡ some (record { object = some o; held = held })
      → held < 2 ^ 32 - 2
      → Call x s (record s { lent = set s.lent i (referred (held) (query_interface riid o)) })
  released :
      (i : ℕ) (o : ComObject) (held : ℕ)
      → get_elem? s.lent i ≡ some (record { object = some o; held = suc held })
      → Call x s (record s {
        process = (release o s.process).1;
        lent = set s.lent i (record { object = (release o s.process).0.1; held = held });
      })
  locked : Call x s (record s { process = (cf_lock_server 1 s.process).1; locks = suc s.locks })
  unlocked :
      (n : ℕ)
      → s.locks ≡ suc n
      → Call x s (record s { process = (cf_lock_server 0 s.process).1; locks = n })

pub data Calls {V : Type 0} (x : Externals V) (s : Life) : Life → Type 0 where
  start : Calls x s s
  next : (t u : Life) → Calls x s t → Call x t u → Calls x s u
