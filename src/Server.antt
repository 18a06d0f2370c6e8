-- ===== src/Server.antt =====
-- The server process as a sequence of steps. Windows calls the class factory and the objects of
-- src/KeePassKeyWin.Provider/src/com/server.rs and com/exe_server.rs in any order, with any arguments;
-- the background task runs after the activation that spawned it, at any time. Each step is taken as a
-- whole; `Flight` has what other calls do while one waits in `sta_block_on`.
pub mod Traced
pub mod Runs
pub mod References
pub mod Spares
pub mod Lost
pub mod Recovery
pub mod Settled
use kee_pass_key_win.Prelude.{ℕ}
use kee_pass_key_win.World.{Guid, Externals, Process}
use kee_pass_key_win.ComObject.{
  ClassFactory, ComObject, cf_create_instance, cf_lock_server, release,
}
use kee_pass_key_win.Authenticator.{
  OperationRequest, make_credential, get_assertion, cancel_operation, get_lock_status,
}
use kee_pass_key_win.Reconciliation.{reconcile_vault_with_os}

pub data Step {V : Type 0} (x : Externals V) (p : Process) : Process → Type 0 where
  activate : (f : ClassFactory) (riid : Guid) → Step x p (cf_create_instance x f riid p).1
  lock_server : (lock : ℕ) → Step x p (cf_lock_server lock p).1
  released : (o : ComObject) → Step x p (release o p).1
  reconciled : (arc : ℕ) → Step x p (reconcile_vault_with_os x arc p)
  made : (arc : ℕ) (req : OperationRequest) → Step x p (make_credential x arc req p).1
  asserted : (arc : ℕ) (req : OperationRequest) → Step x p (get_assertion x arc req p).1
  cancelled :
      (arc : ℕ) (transaction_id : Guid) → Step x p (cancel_operation x arc transaction_id p).1
  asked : (arc : ℕ) → Step x p (get_lock_status x arc p).1

-- The processes that are reached from `p`.
pub data Run {V : Type 0} (x : Externals V) (p : Process) : Process → Type 0 where
  start : Run x p p
  next : (q r : Process) → Run x p q → Step x q r → Run x p r
