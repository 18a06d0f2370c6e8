-- ===== src/Lifetime/Refinement.antt =====
-- The whole server is one that `Server` describes, so what holds in every run of that holds here.
use kee_pass_key_win.Prelude.{ℕ}
use kee_pass_key_win.World.{Externals, Process, fresh_process}
use kee_pass_key_win.World.Counts.{OnePipe}
use kee_pass_key_win.Server.{Run}
use kee_pass_key_win.Server.Runs.{Run-OnePipe}
use kee_pass_key_win.Server as Server
use kee_pass_key_win.Lifetime.{
  Life, Method, credential, assertion, cancellation, lock_status, invoke, Call, Calls, activated,
  invoked, reconciled, referenced, queried, released, locked, unlocked, start, next,
}
use kee_pass_key_win.Lifetime.Counts.{fresh_life}

module _ {V : Type 0} (x : Externals V) where
  invoke-Run : (p q : Process) (arc : ℕ) (m : Method) → Run x p q → Run x p (invoke x arc m q)
  unfolding invoke
  invoke-Run p q arc (credential req) r = Server.next q _ r (Server.made arc req)
  invoke-Run p q arc (assertion req) r = Server.next q _ r (Server.asserted arc req)
  invoke-Run p q arc (cancellation txn) r = Server.next q _ r (Server.cancelled arc txn)
  invoke-Run p q arc lock_status r = Server.next q _ r (Server.asked arc)

  pub Call-Run : (p : Process) (s t : Life) → Call x s t → Run x p s.process → Run x p t.process
  Call-Run p s _ (activated f riid) r = Server.next s.process _ r (Server.activate f riid)
  Call-Run p s _ (invoked i o held m e) r = invoke-Run p s.process o.state m r
  Call-Run p s _ (reconciled i arc e) r = Server.next s.process _ r (Server.reconciled arc)
  Call-Run p s _ (referenced i o held e small) r = r
  Call-Run p s _ (queried i o held riid e small) r = r
  Call-Run p s _ (released i o held e) r = Server.next s.process _ r (Server.released o)
  Call-Run p s _ locked r = Server.next s.process _ r (Server.lock_server 1)
  Call-Run p s _ (unlocked n e) r = Server.next s.process _ r (Server.lock_server 0)

  pub Calls-Run_from : (s t : Life) → Calls x s t → Run x s.process t.process
  Calls-Run_from s _ start = Server.start
  Calls-Run_from s _ (next t u before c) = Call-Run s.process t u c (Calls-Run_from s t before)

  -- Whatever Windows does with the objects that it was given, and whenever the background tasks run,
  -- the server's process is one that its steps reach from the start: at no time were two pipes open.
  Calls-Run :
      (s : Life) → Calls x fresh_life s → Run x fresh_process s.process × OnePipe s.process.history
  Calls-Run s run = let r = Calls-Run_from fresh_life s run in (r, Run-OnePipe x s.process r)
