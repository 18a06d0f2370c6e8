-- ===== src/Authenticator/LockStatus.antt =====
-- The lock status never says more than the plugin did.
use kee_pass_key_win.Prelude.{ℕ, [], false, Option, none, some, Result, ok, err, ◌≡◌, arith}
use kee_pass_key_win.World.{Externals, Process}
use kee_pass_key_win.Ipc.ClientError.{ClientError}
use kee_pass_key_win.Retry.{take_call_with_retry}
use kee_pass_key_win.Authenticator.{unlocked, lock_answer, get_lock_status}

module _ {V : Type 0} (x : Externals V) where
  -- The answers of the plugin that say that the vault is open.
  abbrev pub SaysOpen : Option (Result ClientError V) → Type 0
  SaysOpen (some (ok v)) = x.as_bool (x.index v "locked") ≡ some false
  SaysOpen _ = ⊥

  lock_answer-unlocked :
      (r : Option (Result ClientError V)) (hr : ℕ)
      → lock_answer x r ≡ (hr, some unlocked)
      → SaysOpen r
  unfolding lock_answer
  lock_answer-unlocked none hr h = ground arith
  lock_answer-unlocked (some (ok v)) hr h = ground arith
  lock_answer-unlocked (some (err e)) hr h = ground arith

  -- Windows is told that the vault is unlocked only if the plugin answered the call with a `locked`
  -- that is `false`: without a pipe, on any error, and on an answer without that field it is not.
  pub get_lock_status-unlocked :
      (arc hr : ℕ) (p : Process)
      → (get_lock_status x arc p).0 ≡ (hr, some unlocked)
      → SaysOpen (take_call_with_retry x "keepasskeywin.getLockStatus" (x.object []) arc p).0
  unfolding get_lock_status
  get_lock_status-unlocked arc hr p h = lock_answer-unlocked _ hr h
