-- ===== src/StaWait.antt =====
-- `sta_block_on` of src/KeePassKeyWin.Provider/src/com/exe_server.rs: the task that runs the future on
-- a thread of the runtime, and the thread that waits for its event and then takes its value out of the
-- channel. `outcome` is what the future ends with: a value, or none if it panics. SetEvent may fail,
-- which the source discards. The failures of CreateEventW and CoWaitForMultipleHandles, which panic, are
-- left out, and so is what Windows dispatches while the thread waits.
pub mod Ends
use kee_pass_key_win.Prelude.{Bool, true, false, Option, none, some, ◌≡◌}

-- Where the task is: in the future, past it, before SetEvent, before its end, and gone with its end
-- of the channel.
pub data Task : Type 0 where
  computing computed signalling ending gone : Task

-- Where the waiting thread is: before the event, in `recv`, before CloseHandle, and back at its
-- caller, with a value or with a panic.
pub data Waiter (V : Type 0) : Type 0 where
  waiting receiving : Waiter V
  received : Option V → Waiter V
  returned : Option V → Waiter V

-- Both threads with the channel, the event, and whether the event's handle was closed. The last two
-- fields tell whether SetEvent was called on a closed handle, and whether it failed.
pub record Wait (V : Type 0) : Type 0 where
  pub task : Task
  pub waiter : Waiter V
  pub channel : Option V
  pub signalled : Bool
  pub closed : Bool
  pub misused : Bool
  pub lost : Bool

unfoldable pub begin_wait : {V : Type 0} → Wait V
begin_wait = record {
  task = computing;
  waiter = waiting;
  channel = none;
  signalled = false;
  closed = false;
  misused = false;
  lost = false;
}

-- One step of either thread.
pub data Tick {V : Type 0} (outcome : Option V) (s : Wait V) : Wait V → Type 0 where
  -- catch_unwind
  finish : s.task ≡ computing → Tick outcome s (record s { task = computed })
  -- tx.send, unless the future panicked
  send : s.task ≡ computed → Tick outcome s (record s { task = signalling; channel = outcome })
  -- SetEvent
  signal :
      s.task ≡ signalling
      → Tick outcome s (record s { task = ending; signalled = true; misused = s.closed })
  signal_failed :
      s.task ≡ signalling
      → Tick outcome s (record s { task = ending; misused = s.closed; lost = true })
  end_task : s.task ≡ ending → Tick outcome s (record s { task = gone })
  -- CoWaitForMultipleHandles returns; the event resets itself
  wake :
      s.waiter ≡ waiting
      → s.signalled ≡ true
      → Tick outcome s (record s { waiter = receiving; signalled = false })
  -- rx.recv, with a value or because the sender is gone
  receive :
      (v : V)
      → s.waiter ≡ receiving
      → s.channel ≡ some v
      → Tick outcome s (record s { waiter = received (some v); channel = none })
  disconnect :
      s.waiter ≡ receiving
      → s.channel ≡ none
      → s.task ≡ gone
      → Tick outcome s (record s { waiter = received none })
  -- CloseHandle, and `expect` on what was received
  close :
      (r : Option V)
      → s.waiter ≡ received r
      → Tick outcome s (record s { waiter = returned r; closed = true })

pub data Ticks {V : Type 0} (outcome : Option V) (s : Wait V) : Wait V → Type 0 where
  start : Ticks outcome s s
  next : (t u : Wait V) → Ticks outcome s t → Tick outcome t u → Ticks outcome s u
