-- ===== src/ComObject/Tidy.antt =====
-- The class factory and the objects leave COM as it was.
use kee_pass_key_win.Prelude.{ℕ, arith}
use kee_pass_key_win.World.{Guid, Process}
use kee_pass_key_win.World.Aside.{IsTidy}
use kee_pass_key_win.ComObject.{Chosen, ComObject, cf_lock_server, hand_over, release}

pub hand_over-IsTidy : (riid : Guid) (c : Chosen) (p : Process) → IsTidy p (hand_over riid (c, p)).1
unfolding hand_over
hand_over-IsTidy riid c p = ground arith

pub cf_lock_server-IsTidy : (lock : ℕ) (p : Process) → IsTidy p (cf_lock_server lock p).1
unfolding cf_lock_server
cf_lock_server-IsTidy lock p = ground arith

pub release-IsTidy : (o : ComObject) (p : Process) → IsTidy p (release o p).1
unfolding release
release-IsTidy o p = ground arith
