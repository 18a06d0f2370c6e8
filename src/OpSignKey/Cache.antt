-- ===== src/OpSignKey/Cache.antt =====
-- The key is fetched at most once in the life of the process, and a failure stays.
use kee_pass_key_win.Prelude.{◌≡◌, arith}
use kee_pass_key_win.World.{Externals, Process}
use kee_pass_key_win.World.Transcript.{transcript, last_asked}
use kee_pass_key_win.World.Counts.{lines_sent, IsQuiet, IsUncounted, IsSettled, published}
use kee_pass_key_win.OpSignKey.{get_signing_key_bytes, get_op_sign_pub_key_bytes_for_hello}

module _ {V : Type 0} (x : Externals V) (p : Process) where
  -- Whatever the first fetch gave, a key or an error, every later one gives again, with no call of
  -- the system.
  pub get_signing_key_bytes_cached :
      let (r, q) = get_signing_key_bytes x p in get_signing_key_bytes x q ≡ (r, q)
  unfolding get_signing_key_bytes
  get_signing_key_bytes_cached = ground arith

-- Asking for the key touches no pipe, and of the process only the cache and the calls made.
pub record KeyOnly (p q : Process) : Type 0 where
  pub quiet : IsQuiet p.history q.history
  pub refs : IsUncounted p.history q.history
  pub settled : IsSettled p.history q.history
  pub told : published q.history ≡ published p.history
  pub sent : lines_sent q.history ≡ lines_sent p.history
  pub spoken : transcript q.history ≡ transcript p.history
  pub asked : last_asked q.history ≡ last_asked p.history
  pub kept : q ≡ record p { history = q.history; op_sign_key = q.op_sign_key }

module _ {V : Type 0} (x : Externals V) (p : Process) where
  pub get_op_sign_pub_key_bytes_for_hello-KeyOnly :
      KeyOnly p (get_op_sign_pub_key_bytes_for_hello x p).1
  unfolding get_op_sign_pub_key_bytes_for_hello
  get_op_sign_pub_key_bytes_for_hello-KeyOnly = ground arith
