-- ===== src/ComServer/Composition.antt =====
-- The message loop with the server's calls as what comes of a message, one after the other: a case of
-- the loop with threads.
use kee_pass_key_win.Prelude.{◌≡◌, Bool-cases, inl, inr, List, [], ◌∷◌, String, Result, ok, err}
use kee_pass_key_win.World.{Externals, Process, fresh_process}
use kee_pass_key_win.World.Counts.{OnePipe}
use kee_pass_key_win.ComObject.{ClassFactory}
use kee_pass_key_win.Server.{Run, start, next}
use kee_pass_key_win.Flight as Flight
use kee_pass_key_win.Flight.{Moves}
use kee_pass_key_win.Flight.Refinement.{idle, Moves-trans}
use kee_pass_key_win.Flight.Steps.{Step-Moves}
use kee_pass_key_win.ComServer.{Message, ServerExternals, Serving, run_com_server, start_server}
use kee_pass_key_win.ComServer.Shutdown.{Ended, GivenBack}
use kee_pass_key_win.ComServer.Threads.{quits, Interleaved, AllInterleaved, run_com_server-IsProper}

module _ {V : Type 0} (x : Externals V) where
  Run-Moves : (p q : Process) → Run x p q → Moves x (idle p) (idle q)
  Run-Moves p _ start = Flight.start
  Run-Moves p _ (next q r before step) =
      Moves-trans x (idle p) (idle q) (idle r) (Run-Moves p q before) (Step-Moves x q r step)

  -- What comes of each message is a run of the server's calls, and the references to the factory that
  -- Windows takes meanwhile are given back.
  abbrev AllServed : List Message → Type 0
  AllServed [] = Unit
  AllServed (m ∷ ms) =
      ((f : ClassFactory) (p : Process) → ((m.dispatch f p).0 ≡ f) × Run x p (m.dispatch f p).1)
      × AllServed ms

  AllServed-Interleaved :
      (ms : List Message) (f : ClassFactory) (p : Process)
      → AllServed ms
      → Interleaved x ms f (idle p)
  AllServed-Interleaved [] f p h = tt
  AllServed-Interleaved (m ∷ ms) f p h =
      let (g, q) = m.dispatch f p in
      let (same, run) = h.0 f p in
      elim (Bool-cases (quits m)) [
        | inl e ↦ rw e tt
        | inr e ↦ rw e (same, ([], Run-Moves p q run, AllServed-Interleaved ms g q h.1))
      ]

  started-AllInterleaved :
      (ms : List Message) (r : Result String Serving × Process)
      → AllServed ms
      → AllInterleaved x ms r
  started-AllInterleaved ms (err e, p) h = tt
  started-AllInterleaved ms (ok s, p) h = AllServed-Interleaved ms s.factory p h

module _ {V : Type 0} (x : ServerExternals V) where
  -- From a fresh process, whatever messages come, if each is dispatched to calls of the server that give
  -- back what they take of the factory, and the revocation of the class gives back what its
  -- registration took: at no time are two pipes to the plugin open, up to the end; and the server exits
  -- only with its class revoked by one call, its factory freed and COM left once.
  run_com_server-OnePipe :
      (messages : List Message)
      → GivenBack x fresh_process
      → AllServed x.base messages
      → let (served, q) = run_com_server x messages fresh_process in
        Ended x fresh_process (served, q) × OnePipe q.history
  run_com_server-OnePipe messages b h =
      let started = started-AllInterleaved x.base messages (start_server x fresh_process) h in
      let (ended, proper) = run_com_server-IsProper x messages b started in (ended, proper.0)
