-- ===== src/StaWait/Ends.antt =====
-- The wait returns what the future gave, unless SetEvent fails, and a closed handle is never signalled.
use kee_pass_key_win.Prelude.{
  Bool, true, false, not, Option, none, some, ◌≡◌, refl, ap, sym, subst, arith,
}
use kee_pass_key_win.StaWait.{
  Task, computing, computed, signalling, ending, gone, Waiter, waiting, receiving, received,
  returned, Wait, begin_wait, Tick, finish, send, signal, signal_failed, end_task, wake, receive,
  disconnect, close, Ticks, start, next,
}

-- The waiting thread once SetEvent was called: it sleeps on if that failed.
abbrev Woken : {V : Type 0} → Option V → Wait V → Waiter V → Type 0
Woken outcome s waiting = (s.channel ≡ outcome) × (s.signalled ≡ not s.lost) × (s.closed ≡ false)
Woken outcome s receiving = (s.channel ≡ outcome) × (s.closed ≡ false) × (s.lost ≡ false)
Woken outcome s (received r) = (r ≡ outcome) × (s.closed ≡ false) × (s.lost ≡ false)
Woken outcome s (returned r) = (r ≡ outcome) × (s.lost ≡ false)

-- Nothing has happened to the waiting thread.
abbrev Asleep : {V : Type 0} → Option V → Wait V → Type 0
Asleep channel s =
    (s.channel ≡ channel)
    × (s.waiter ≡ waiting)
    × (s.signalled ≡ false)
    × (s.closed ≡ false)
    × (s.lost ≡ false)

abbrev Placed : {V : Type 0} → Option V → Wait V → Task → Type 0
Placed outcome s computing = Asleep none s
Placed outcome s computed = Asleep none s
Placed outcome s signalling = Asleep outcome s
Placed outcome s ending = Woken outcome s s.waiter
Placed outcome s gone = Woken outcome s s.waiter

abbrev IsSound : {V : Type 0} → Option V → Wait V → Type 0
IsSound outcome s = Placed outcome s s.task × (s.misused ≡ false)

module _ {V : Type 0} (outcome : Option V) where
  Tick-IsSound : (s t : Wait V) → Tick outcome s t → IsSound outcome s → IsSound outcome t
  Tick-IsSound s _ (finish e) h = ground arith
  Tick-IsSound s _ (send e) h = ground arith
  Tick-IsSound s _ (signal e) h = ground arith
  Tick-IsSound s _ (signal_failed e) h = ground arith
  Tick-IsSound s _ (end_task e) h = ground arith
  Tick-IsSound s _ (wake e f) h = ground arith
  Tick-IsSound s _ (receive v e f) h = ground arith
  Tick-IsSound s _ (disconnect e f g) h = ground arith
  Tick-IsSound s _ (close r e) h = ground arith

  Ticks-IsSound : (s t : Wait V) → Ticks outcome s t → IsSound outcome s → IsSound outcome t
  Ticks-IsSound s _ start h = h
  Ticks-IsSound s _ (next t u before m) h = Tick-IsSound t u m (Ticks-IsSound s t before h)

  Ticks-trans : (s t u : Wait V) → Ticks outcome s t → Ticks outcome t u → Ticks outcome s u
  Ticks-trans s t _ a start = a
  Ticks-trans s t u a (next v _ b m) = next v u (Ticks-trans s t v a b) m

  Returns : Wait V → Type 0
  Returns s = (t : Wait V) × Ticks outcome s t × (t.waiter ≡ returned outcome)

  -- A tick before a run that returns; the tick gives a sound state for it.
  first_tick :
      (s t : Wait V)
      → Tick outcome s t
      → IsSound outcome s
      → (IsSound outcome t → Returns t)
      → Returns s
  unfolding Returns
  first_tick s t m h rest =
      let (u, run, e) = rest (Tick-IsSound s t m h) in
      (u, Ticks-trans s t u (next s t start m) run, e)

  abbrev at : Task → Waiter V → Option V → Bool → Bool → Bool → Wait V
  at task waiter channel signalled closed misused = record {
    task = task;
    waiter = waiter;
    channel = channel;
    signalled = signalled;
    closed = closed;
    misused = misused;
    lost = false;
  }

  Returns-returned :
      (r c : Option V) (e l m : Bool)
      → IsSound outcome (at gone (returned r) c e l m)
      → Returns (at gone (returned r) c e l m)
  unfolding Returns
  Returns-returned r c e l m h = (_, start, ap returned h.0.0)

  Returns-received :
      (r c : Option V) (e l m : Bool)
      → IsSound outcome (at gone (received r) c e l m)
      → Returns (at gone (received r) c e l m)
  Returns-received r c e l m h =
      first_tick _ _ (close r refl) h (λ k. Returns-returned r c e true m k)

  Returns-receiving :
      (c : Option V) (e l m : Bool)
      → IsSound outcome (at gone receiving c e l m)
      → Returns (at gone receiving c e l m)
  Returns-receiving (some v) e l m h =
      first_tick _ _ (receive v refl refl) h (λ k. Returns-received (some v) none e l m k)
  Returns-receiving none e l m h =
      first_tick _ _ (disconnect refl refl refl) h (λ k. Returns-received none none e l m k)

  Returns-gone :
      (w : Waiter V) (c : Option V) (e l m : Bool)
      → IsSound outcome (at gone w c e l m)
      → Returns (at gone w c e l m)
  Returns-gone (returned r) c e l m h = Returns-returned r c e l m h
  Returns-gone (received r) c e l m h = Returns-received r c e l m h
  Returns-gone receiving c e l m h = Returns-receiving c e l m h
  Returns-gone waiting c e l m h =
      first_tick _ _ (wake refl h.0.1) h (λ k. Returns-receiving c false l m k)

  Returns-ending :
      (w : Waiter V) (c : Option V) (e l m : Bool)
      → IsSound outcome (at ending w c e l m)
      → Returns (at ending w c e l m)
  Returns-ending w c e l m h = first_tick _ _ (end_task refl) h (λ k. Returns-gone w c e l m k)

  Returns-signalling :
      (w : Waiter V) (c : Option V) (e l m : Bool)
      → IsSound outcome (at signalling w c e l m)
      → Returns (at signalling w c e l m)
  Returns-signalling w c e l m h =
      first_tick _ _ (signal refl) h (λ k. Returns-ending w c true l l k)

  Returns-computed :
      (w : Waiter V) (c : Option V) (e l m : Bool)
      → IsSound outcome (at computed w c e l m)
      → Returns (at computed w c e l m)
  Returns-computed w c e l m h =
      first_tick _ _ (send refl) h (λ k. Returns-signalling w outcome e l m k)

  Returns-computing :
      (w : Waiter V) (c : Option V) (e l m : Bool)
      → IsSound outcome (at computing w c e l m)
      → Returns (at computing w c e l m)
  Returns-computing w c e l m h = first_tick _ _ (finish refl) h (λ k. Returns-computed w c e l m k)

  returns :
      (t : Task) (w : Waiter V) (c : Option V) (e l m : Bool)
      → IsSound outcome (at t w c e l m)
      → Returns (at t w c e l m)
  returns gone w c e l m h = Returns-gone w c e l m h
  returns ending w c e l m h = Returns-ending w c e l m h
  returns signalling w c e l m h = Returns-signalling w c e l m h
  returns computed w c e l m h = Returns-computed w c e l m h
  returns computing w c e l m h = Returns-computing w c e l m h

  begin_wait-IsSound : IsSound outcome begin_wait
  unfolding begin_wait
  begin_wait-IsSound = ground arith

  module _ (s : Wait V) (run : Ticks outcome begin_wait s) where
    -- However the two threads interleave: when the wait has returned, it returned the value of the
    -- future, or panicked exactly if the future did; and SetEvent was never called on a closed handle.
    pub Ticks-outcome : (s.misused ≡ false) × ((r : Option V) → s.waiter ≡ returned r → r ≡ outcome)
    Ticks-outcome =
        let h = Ticks-IsSound begin_wait s run begin_wait-IsSound in (h.1, λ r e. ground arith)

    -- The same of a wait in which SetEvent has failed: the thread still waits, and will.
    pub Ticks-lost : s.lost ≡ true → s.waiter ≡ waiting
    Ticks-lost e = let h = Ticks-IsSound begin_wait s run begin_wait-IsSound in ground (arith, h, e)

    -- However the two threads interleave, and also when the future panics: from every state that is
    -- reached and in which SetEvent has not failed, steps lead to one in which the wait has returned
    -- what the future gave.
    pub Ticks-returns :
        s.lost ≡ false → (t : Wait V) × Ticks outcome s t × (t.waiter ≡ returned outcome)
    unfolding Returns
    Ticks-returns e =
        let sound = Ticks-IsSound begin_wait s run begin_wait-IsSound in
        let same : at s.task s.waiter s.channel s.signalled s.closed s.misused ≡ s =
          ap (λ (b : Bool). record s { lost = b }) (sym e) in
        subst Returns same (
          returns s.task s.waiter s.channel s.signalled s.closed s.misused
            (subst (IsSound outcome) (sym same) sound))
