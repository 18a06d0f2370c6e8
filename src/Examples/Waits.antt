-- ===== src/Examples/Waits.antt =====
-- Two waits: for a future that gives a value, and for one that panics.
use kee_pass_key_win.Prelude.{ℕ, true, false, Option, none, some, ◌≡◌, refl}
use kee_pass_key_win.StaWait.{
  Wait, Ticks, begin_wait, close, computed, finish, receive, returned, send, signal, wake, start,
  next, ending,
}
use kee_pass_key_win.StaWait.Ends.{Ticks-outcome, Ticks-returns}

abbrev five : Option ℕ
five = some 5

-- The waiting thread returns before the task has ended.
abbrev late : Wait ℕ
late = record {
  task = ending;
  waiter = returned five;
  channel = none;
  signalled = false;
  closed = true;
  misused = false;
  lost = false;
}

abbrev late_run : Ticks five begin_wait late
unfolding begin_wait
late_run =
    next _ _
      (next _ _
        (next _ _ (next _ _ (next _ _ (next _ _ start (finish refl)) (send refl)) (signal refl))
          (wake refl refl))
        (receive 5 refl refl))
      (close five refl)

late_example : (late.misused ≡ false) × ((r : Option ℕ) → late.waiter ≡ returned r → r ≡ five)
late_example = Ticks-outcome five late late_run

abbrev panicked : Wait ℕ
panicked = record begin_wait { task = computed }

panic_example : (t : Wait ℕ) × Ticks none panicked t × (t.waiter ≡ returned none)
unfolding begin_wait
panic_example = Ticks-returns none panicked (next _ _ start (finish refl)) refl
