-- ===== src/ComServer/Threads.antt =====
-- The message loop with other threads at work: what comes of a message, and of the calls that are
-- already in flight while it is waited for, is any interleaving of the moves of `Flight`.
use kee_pass_key_win.Prelude.{
  ◌≡◌, ◌∙◌, ◌||◌, arith, refl, subst, Bool, true, false, List, [], ◌∷◌, String, Result, ok, err,
  pos, minus, eq_ℤ, Bool-cases, inl, inr, ℕ,
}
use kee_pass_key_win.World.{Externals, Process, fresh_process}
use kee_pass_key_win.World.Counts.{OnePipe}
use kee_pass_key_win.World.Transcript.{transcript}
use kee_pass_key_win.World.Aside.{IsBeside}
use kee_pass_key_win.Retry.Ownership.{fresh_process-IsOwned}
use kee_pass_key_win.ComObject.{ClassFactory}
use kee_pass_key_win.Flight.{Flight, System, Moves, start}
use kee_pass_key_win.Flight.Refinement.{idle, Moves-trans}
use kee_pass_key_win.Flight.Tidy.{Moves-IsTidy}
use kee_pass_key_win.Flight.Exclusive.{Exclusive, aside-Exclusive}
use kee_pass_key_win.Flight.Exclusion.{Exclusive-OnePipe}
use kee_pass_key_win.Protocol.{Conforms}
use kee_pass_key_win.Protocol.Moves.{
  Speaking, Moves-Speaking, Speaking-Conforms, aside-Speaking, fresh_process-Speaking,
}
use kee_pass_key_win.ComServer.{
  Message, ServerExternals, Serving, conclude_pump, pump, run_com_server, serve, shutdown,
  start_server,
}
use kee_pass_key_win.ComServer.Shutdown.{
  Ended, Started, GivenBack, conclude_pump-Ended, start_server-Started,
}

abbrev pub quits : Message → Bool
quits m = eq_ℤ m.result (pos 0) || eq_ℤ m.result (minus 1)

abbrev Unless : Bool → Type 0 → Type 0
Unless true A = Unit
Unless false A = A

holds : (b : Bool) (A : Type 0) → b ≡ false → Unless b A → A
holds b A e h = subst (λ b. Unless b A) e h

module _ {V : Type 0} (x : Externals V) where
  -- From a system on, what each message brings about up to the one that ends the loop is a run of
  -- moves, with some flights left, and Windows gives back what it takes of the factory.
  abbrev pub Interleaved : List Message → ClassFactory → System V → Type 0
  Interleaved [] f s = Unit
  Interleaved (m ∷ ms) f s =
      let (g, q) = m.dispatch f s.process in
      Unless (quits m) (
        (g ≡ f)
        × ((fs : List (Flight V)) × Moves x s (record { process = q; flights = fs })
            × Interleaved ms g (record { process = q; flights = fs })))

  pump-Moves :
      (ms : List Message) (f : ClassFactory) (s : System V)
      → Interleaved ms f s
      → let (quit, g, q) = pump ms f s.process in
        (g ≡ f) × ((fs : List (Flight V)) × Moves x s (record { process = q; flights = fs }))
  unfolding pump
  pump-Moves [] f s h = (refl, (s.flights, start))
  pump-Moves (m ∷ ms) f s h =
      let (g, q) = m.dispatch f s.process in
      elim (Bool-cases (quits m)) [
        | inl e ↦ rw e (refl, (s.flights, start))
        | inr e ↦
            let (same, (fs, run, later)) = holds (quits m) _ e h in
            let t : System V = record { process = q; flights = fs } in
            let (kept, (gs, on)) = pump-Moves ms g t later in
            rw e (kept ∙ same, (gs, Moves-trans x s t _ run on))
      ]

  -- The same from what the start of the server gives.
  abbrev pub AllInterleaved : List Message → Result String Serving × Process → Type 0
  AllInterleaved messages (err e, p) = Unit
  AllInterleaved messages (ok s, p) = Interleaved messages s.factory (idle p)

  -- What is kept on the pipe.
  abbrev Kept : List (Flight V) → Process → Type 0
  Kept fs p = Exclusive fs p × Speaking x fs p

  aside-Kept : (fs : List (Flight V)) (p q : Process) → IsBeside p q → Kept fs p → Kept fs q
  aside-Kept fs p q a (w, k) = (aside-Exclusive x fs p q a w, aside-Speaking x fs p q a k)

-- No two pipes were ever open, and what was written keeps to the protocol.
abbrev pub IsProper : {V : Type 0} → Externals V → Process → Type 0
IsProper x p = OnePipe p.history × Conforms x (transcript p.history)

module _ {V : Type 0} (x : ServerExternals V) where
  Kept-IsProper : (fs : List (Flight V)) (p : Process) → Kept x.base fs p → IsProper x.base p
  Kept-IsProper fs p (w, k) = (Exclusive-OnePipe fs p w, Speaking-Conforms x.base fs p w k)

  start_server-IsBeside : (p : Process) → IsBeside p (start_server x p).1
  unfolding start_server
  start_server-IsBeside p = ground arith

  conclude_pump-IsBeside :
      (cookie : ℕ) (quit : Bool) (f : ClassFactory) (p : Process)
      → IsBeside p (conclude_pump x cookie (quit, f, p)).1
  unfolding conclude_pump shutdown
  conclude_pump-IsBeside cookie quit f p = ground arith

  serve-IsProper :
      (messages : List Message) (p : Process) (r : Result String Serving × Process)
      → GivenBack x p
      → AllInterleaved x.base messages r
      → Started x p r
      → Kept x.base [] r.1
      → let (served, q) = serve x messages r in Ended x p (served, q) × IsProper x.base q
  unfolding serve
  serve-IsProper messages p (err e, q) b h k w = (k, Kept-IsProper [] q w)
  serve-IsProper messages p (ok s, q) b h k w =
      let (quit, g, t) = pump messages s.factory q in
      let (same, (fs, run)) = pump-Moves x.base messages s.factory (idle q) h in
      let tidy = Moves-IsTidy x.base (idle q) _ run in
      let kept = Moves-Speaking x.base (idle q) _ run w.0 w.1 in
      let end = conclude_pump x s.cookie (quit, g, t) in
      (
        conclude_pump-Ended x p b s.cookie quit g t (ground (arith, k, same, tidy)),
        Kept-IsProper fs end.1
            (aside-Kept x.base fs t end.1 (conclude_pump-IsBeside s.cookie quit g t) kept),
      )

  -- From a fresh process, whatever messages come, if what comes of them is an interleaving of the
  -- server's calls, activations and background tasks in their stages, what Windows takes of the
  -- factory meanwhile is given back, and the revocation of the class gives back the references that its
  -- registration took, fewer than 2^32 - 1: two pipes to the plugin are never open and what is written
  -- keeps to the protocol, up to the end; the server exits only with its class revoked by one call, its
  -- factory freed and COM left once; it waits only with the factory counting its own reference and
  -- those of the registration; and when its start panics, nothing was revoked and COM is not left.
  pub run_com_server-IsProper :
      (messages : List Message)
      → GivenBack x fresh_process
      → AllInterleaved x.base messages (start_server x fresh_process)
      → let (served, q) = run_com_server x messages fresh_process in
        Ended x fresh_process (served, q) × IsProper x.base q
  unfolding run_com_server
  run_com_server-IsProper messages b h =
      let (r, p) = start_server x fresh_process in
      serve-IsProper messages fresh_process (r, p) b h (start_server-Started x fresh_process b)
        (aside-Kept x.base [] fresh_process p (start_server-IsBeside fresh_process)
          (fresh_process-IsOwned, fresh_process-Speaking x.base))
