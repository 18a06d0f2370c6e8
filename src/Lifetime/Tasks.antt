-- ===== src/Lifetime/Tasks.antt =====
-- Every object has a state that was allocated, and no state is given to two background tasks.
use kee_pass_key_win.Prelude.{
  ℕ, suc, ◌≤◌, ◌<◌, ◌≡◌, ap, sym, subst, arith, Option, none, some, List, get_elem?, set, without,
  length,
}
use kee_pass_key_win.World.{Guid, Externals, AuthenticatorState, Process}
use kee_pass_key_win.Retry.Ownership.{IsOwned, fresh_process-IsOwned}
use kee_pass_key_win.ComObject.{
  ClassFactory, ComObject, add_ref, cf_create_instance, choose_state, hand_over, query_interface,
  release,
}
use kee_pass_key_win.ComObject.Sharing.{hand_over-IsBeside}
use kee_pass_key_win.Server.{Run}
use kee_pass_key_win.Server.Runs.{Run-IsOwned}
use kee_pass_key_win.Server.Spares.{Run-Spares}
use kee_pass_key_win.Server as Server
use kee_pass_key_win.Lifetime.{
  Lent, Life, lend, spawn, after_activation, Call, Calls, activated, invoked, reconciled,
  referenced, queried, released, locked, unlocked, start, next,
}
use kee_pass_key_win.Lifetime.Choices.{New, hand_over-state, choose_state-Choice}
use kee_pass_key_win.Lifetime.States.{
  Within, AllWithin, Descending, AllWithin-get, AllWithin-set, AllWithin-grow, Descending-grow,
  Descending-without, Descending-get, Descending-distinct,
}
use kee_pass_key_win.Lifetime.Counts.{fresh_life}
use kee_pass_key_win.Lifetime.Refinement.{Call-Run}

-- The pipe is owned, every object has a state, and the tasks have different ones.
pub record IsRooted (s : Life) : Type 0 where
  owned : IsOwned s.process
  objects : AllWithin (length s.process.arcs) s.lent
  tasks : Descending (length s.process.arcs) s.tasks

spawn-Descending :
    (p q : Process) (spawned : Option ℕ) (tasks : List ℕ)
    → length p.arcs ≤ length q.arcs
    → New p q spawned
    → Descending (length p.arcs) tasks
    → Descending (length q.arcs) (spawn spawned tasks)
spawn-Descending p q none tasks le n h = Descending-grow _ _ tasks le h
spawn-Descending p q (some a) tasks le n h = (n.1, Descending-grow _ a tasks n.0 h)

-- One object's references change, and not its state.
relent :
    (s : Life) (i : ℕ) (o : ComObject) (held : ℕ) (l : Lent)
    → IsRooted s
    → get_elem? s.lent i ≡ some (record { object = some o; held = held })
    → (o.state < length s.process.arcs → Within (length s.process.arcs) l)
    → IsRooted (record s { lent = set s.lent i l })
relent s i o held l h e k = record {
  owned = h.owned;
  objects = AllWithin-set _ s.lent i l h.objects (k (AllWithin-get _ s.lent i _ h.objects e));
  tasks = h.tasks;
}

module _ {V : Type 0} (x : Externals V) where
  -- What is not an activation allocates nothing.
  settled :
      (s : Life) (q : Process) (tasks : List ℕ)
      → IsRooted s
      → Run x s.process q
      → Descending (length s.process.arcs) tasks
      → IsRooted (record s { process = q; tasks = tasks })
  settled s q tasks h run d =
      let grown = (Run-Spares x s.process q run).grown in
      record {
        owned = Run-IsOwned x s.process q run h.owned;
        objects = AllWithin-grow _ _ s.lent grown h.objects;
        tasks = Descending-grow _ _ tasks grown d;
      }

  activated-IsRooted :
      (f : ClassFactory) (riid : Guid) (s : Life)
      → IsRooted s
      → IsRooted (after_activation (cf_create_instance x f riid s.process) s)
  unfolding cf_create_instance
  activated-IsRooted f riid s h =
      let step = Server.next s.process _ Server.start (Server.activate f riid) in
      let (c, q) = choose_state x f.session_id s.process in
      let (state, grown, new) = choose_state-Choice x f.session_id s.process h.owned in
      let n = length q.arcs in
      let (lent, spawned) =
        hand_over-state n riid c q s.lent state (AllWithin-grow _ n s.lent grown h.objects) in
      let same : length (hand_over riid (c, q)).1.arcs ≡ n =
        ap (λ (zs : List AuthenticatorState). length zs) (hand_over-IsBeside riid c q).arcs in
      let tasks = spawn-Descending s.process q c.spawned s.tasks grown new h.tasks in
      record {
        owned = Run-IsOwned x s.process _ step h.owned;
        objects =
            subst (λ m. AllWithin m (lend (hand_over riid (c, q)).0.object s.lent)) (sym same) lent;
        tasks =
            subst (λ m. Descending m (spawn (hand_over riid (c, q)).0.spawned s.tasks)) (sym same)
              (subst (λ a. Descending n (spawn a s.tasks)) (sym spawned) tasks);
      }

  -- A step that spawns and runs no task.
  stepped :
      (s : Life) (q : Process) (locks : ℕ)
      → IsRooted s
      → Run x s.process q
      → IsRooted (record s { process = q; locks = locks })
  stepped s q locks h run =
      let k = settled s q s.tasks h run h.tasks in
      record { owned = k.owned; objects = k.objects; tasks = k.tasks }

  Call-IsRooted : (s t : Life) → Call x s t → IsRooted s → IsRooted t
  unfolding add_ref query_interface release
  Call-IsRooted s _ (activated f riid) h = activated-IsRooted f riid s h
  Call-IsRooted s _ (invoked i o held m e) h =
      stepped s _ s.locks h (Call-Run x s.process s _ (invoked i o held m e) Server.start)
  Call-IsRooted s _ (reconciled i arc e) h =
      settled s _ (without i s.tasks) h (Call-Run x s.process s _ (reconciled i arc e) Server.start)
        (Descending-without _ i s.tasks h.tasks)
  Call-IsRooted s _ (referenced i o held e small) h = relent s i o held _ h e (λ k. k)
  Call-IsRooted s _ (queried i o held riid e small) h =
      relent s i o held _ h e (λ k. ground (arith, k))
  Call-IsRooted s _ (released i o held e) h =
      let l : Lent = record { object = (release o s.process).0.1; held = held } in
      let r = relent s i o (suc held) l h e (λ k. ground (arith, k)) in
      stepped (record s { lent = set s.lent i l }) _ s.locks r
        (Call-Run x s.process s _ (released i o held e) Server.start)
  Call-IsRooted s _ locked h =
      stepped s _ (suc s.locks) h (Call-Run x s.process s _ locked Server.start)
  Call-IsRooted s _ (unlocked n e) h =
      stepped s _ n h (Call-Run x s.process s _ (unlocked n e) Server.start)

  Calls-IsRooted : (s t : Life) → Calls x s t → IsRooted s → IsRooted t
  Calls-IsRooted s _ start h = h
  Calls-IsRooted s _ (next t u before c) h = Call-IsRooted t u c (Calls-IsRooted s t before h)

  module _ (s : Life) (run : Calls x fresh_life s) where
    -- The state of every object that is not freed is one that was allocated.
    pub Calls-objects :
        (i : ℕ) (o : ComObject) (held : ℕ)
        → get_elem? s.lent i ≡ some (record { object = some o; held = held })
        → o.state < length s.process.arcs
    Calls-objects i o held e =
        let h =
          Calls-IsRooted fresh_life s run
            (record { owned = fresh_process-IsOwned; objects = tt; tasks = tt }) in
        AllWithin-get _ s.lent i _ h.objects e

    -- However the server is used, no state waits for two runs of `reconcile_vault_with_os`, and each
    -- waits for one only if it was allocated.
    pub Calls-tasks :
        (i j arc : ℕ)
        → get_elem? s.tasks i ≡ some arc
        → get_elem? s.tasks j ≡ some arc
        → (i ≡ j) × (arc < length s.process.arcs)
    Calls-tasks i j arc e f =
        let h =
          Calls-IsRooted fresh_life s run
            (record { owned = fresh_process-IsOwned; objects = tt; tasks = tt }) in
        (
          Descending-distinct _ i j arc s.tasks h.tasks e f,
          Descending-get _ i arc s.tasks h.tasks e,
        )
