-- ===== src/Server/Runs.antt =====
-- What holds in every process that the server can reach.
use kee_pass_key_win.Prelude.{ℕ, some, ◌≡◌, arith, get_elem?}
use kee_pass_key_win.World.{Externals, PipeClient, Process, fresh_process, pipe_of}
use kee_pass_key_win.World.Counts.{OnePipe}
use kee_pass_key_win.World.Aside.{IsBeside}
use kee_pass_key_win.Retry.Ownership.{
  IsOwned, IsAside-IsOwned, IsBeside-IsOwned, fresh_process-IsOwned, put_back-IsOwned,
  take_call_with_retry-IsOwned,
}
use kee_pass_key_win.ComObject.{ComObject, cf_lock_server, release}
use kee_pass_key_win.ComObject.Sharing.{cf_create_instance-IsOwned}
use kee_pass_key_win.Retry.Frame.{call_value-OneCall}
use kee_pass_key_win.Ipc.Client.{call_value}
use kee_pass_key_win.Server.Traced.{
  Traced, task_session, reconcile_vault_with_os-traced, make_credential-traced,
  get_assertion-traced, cancel_operation-traced, get_lock_status-traced,
}
use kee_pass_key_win.Server.{
  Step, activate, lock_server, released, reconciled, made, asserted, cancelled, asked, Run, start,
  next,
}

pub cf_lock_server-IsBeside : (lock : ℕ) (p : Process) → IsBeside p (cf_lock_server lock p).1
unfolding cf_lock_server
cf_lock_server-IsBeside lock p = ground arith

pub release-IsBeside : (o : ComObject) (p : Process) → IsBeside p (release o p).1
unfolding release
release-IsBeside o p = ground arith

-- A process that keeps the pipe owned, if it was.
abbrev pub Owned : Process → Process → Type 0
Owned p q = IsOwned p → IsOwned q

module _ {V : Type 0} (x : Externals V) where
  pub owned : Traced x Owned
  owned = record {
    along = λ a b w. b (a w);
    aside = λ {p} {q} a. IsAside-IsOwned p q a;
    retried = λ method params arc p. take_call_with_retry-IsOwned x method params arc p;
    called = λ method params arc p c h w.
        put_back-IsOwned arc p c w h (call_value x method params (task_session arc c p)).1
          (call_value-OneCall x method params (task_session arc c p));
  }

  Step-IsOwned : (p q : Process) → Step x p q → IsOwned p → IsOwned q
  Step-IsOwned p _ (activate f riid) w = cf_create_instance-IsOwned x f riid p w
  Step-IsOwned p _ (lock_server l) w = IsBeside-IsOwned p _ (cf_lock_server-IsBeside l p) w
  Step-IsOwned p _ (released o) w = IsBeside-IsOwned p _ (release-IsBeside o p) w
  Step-IsOwned p _ (reconciled arc) w = reconcile_vault_with_os-traced x Owned owned arc p w
  Step-IsOwned p _ (made arc req) w = make_credential-traced x Owned owned arc req p w
  Step-IsOwned p _ (asserted arc req) w = get_assertion-traced x Owned owned arc req p w
  Step-IsOwned p _ (cancelled arc txn) w = cancel_operation-traced x Owned owned arc txn p w
  Step-IsOwned p _ (asked arc) w = get_lock_status-traced x Owned owned arc p w

  pub Run-IsOwned : (p q : Process) → Run x p q → IsOwned p → IsOwned q
  Run-IsOwned p _ start w = w
  Run-IsOwned p _ (next q r before step) w = Step-IsOwned q r step (Run-IsOwned p q before w)

  -- However the server is called from its start on, in whatever order, and whatever the system and
  -- the plugin answer, at no time were two pipes to the plugin open.
  pub Run-OnePipe : (p : Process) → Run x fresh_process p → OnePipe p.history
  Run-OnePipe p run = (Run-IsOwned fresh_process p run fresh_process-IsOwned).one

  -- In every process that the server reaches, two states that each hold a pipe are the same state,
  -- so that every object that can call the plugin calls it on one pipe.
  pub Run-one_holder :
      (p : Process)
      → Run x fresh_process p
      → (i j : ℕ) (c d : PipeClient) → pipe_of (get_elem? p.arcs i) ≡ some c
      → pipe_of (get_elem? p.arcs j) ≡ some d
      → i ≡ j
  Run-one_holder p run i j c d hc hd =
      let w = Run-IsOwned fresh_process p run fresh_process-IsOwned in
      ground (arith, w.only i c hc, w.only j d hd)
