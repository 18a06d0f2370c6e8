-- ===== src/Ipc/Connecting.antt =====
-- What `PipeClient::connect` does: how often it tries, how long it sleeps, and what it returns.
use kee_pass_key_win.Prelude.{
  ℕ, ◌+◌, ◌≤◌, Option, none, some, List, [], ◌∷◌, Result, ok, err, ◌≡◌, ◌≢◌, arith, length,
  Result-cases, inl, inr,
}
use kee_pass_key_win.World.{
  IoError, pipe_refused, slept, emit, pipe_opened, Externals, PipeClient, Process,
}
use kee_pass_key_win.World.Counts.{
  attempts, pipes_opened, pipes_closed, slept_ms, lines_sent, OnePipe, IsUncounted, IsSettled,
  published,
}
use kee_pass_key_win.Ipc.ClientError.{ClientError, timeout, io}
use kee_pass_key_win.Ipc.Client.{delays_ms, try_connect, connect_from, connect}

abbrev total : List ℕ → ℕ
total [] = 0
total (d ∷ ds) = d + total ds

-- No pipe was closed, nothing was sent, and nothing else of the process has changed.
pub record IsKept (p q : Process) : Type 0 where
  pub closed : pipes_closed q.history ≡ pipes_closed p.history
  pub sent : lines_sent q.history ≡ lines_sent p.history
  pub kept : q ≡ record p { history = q.history }
  pub refs : IsUncounted p.history q.history
  pub settled : IsSettled p.history q.history
  pub told : published q.history ≡ published p.history
  pub one : pipes_opened p.history ≤ pipes_closed p.history → OnePipe p.history → OnePipe q.history

-- The outcome of a connection that may sleep through the given delays, from a process `p`.
abbrev pub Connected : List ℕ → Process → Result ClientError PipeClient × Process → Type 0
Connected ds p (ok c, q) =
    (attempts q.history ≤ attempts p.history + length ds + 1)
    × (slept_ms q.history ≤ slept_ms p.history + total ds)
    × (pipes_opened q.history ≡ pipes_opened p.history + 1)
    × (c.next_id ≡ 1)
    × IsKept p q
Connected ds p (err e, q) =
    (attempts q.history ≡ attempts p.history + length ds + 1)
    × (slept_ms q.history ≡ slept_ms p.history + total ds)
    × (pipes_opened q.history ≡ pipes_opened p.history)
    × (e ≢ timeout)
    × IsKept p q

-- A refused attempt and a sleep before a connection.
Connected-cons :
    (d : ℕ) (ds : List ℕ) (sid : ℕ) (p : Process) (r : Result ClientError PipeClient × Process)
    → Connected ds (emit (slept d) (emit (pipe_refused sid) p)) r
    → Connected (d ∷ ds) p r
Connected-cons d ds sid p (ok c, q) h = ground arith
Connected-cons d ds sid p (err e, q) h = ground arith

module _ {V : Type 0} (x : Externals V) (sid : ℕ) where
  abbrev refused : ℕ → Process → Process
  refused d p = emit (slept d) (emit (pipe_refused sid) p)

  pub try_connect-ok :
      (p : Process) (h : ℕ)
      → x.open_pipe p.history sid ≡ ok h
      → try_connect x sid p
        ≡ (ok (record { transport = h; next_id = 1 }), emit (pipe_opened sid h) p)
  unfolding try_connect
  try_connect-ok p h o = rw (o, try_connect)

  pub try_connect-err :
      (p : Process) (e : IoError)
      → x.open_pipe p.history sid ≡ err e
      → try_connect x sid p ≡ (err (io e), emit (pipe_refused sid) p)
  unfolding try_connect
  try_connect-err p e o = rw (o, try_connect)

  connect_from-last :
      (i : IoError) (p : Process) → Connected [] p (connect_from x [] (some (io i)) sid p)
  unfolding connect_from try_connect
  connect_from-last i p = ground arith

  -- One round of the loop, given that the rest is as it should be after a refused attempt.
  connect_from-step :
      (d : ℕ) (ds : List ℕ) (l : Option ClientError) (p : Process)
      → ((e : IoError)
          → Connected ds (refused d p) (connect_from x ds (some (io e)) sid (refused d p)))
      → Connected (d ∷ ds) p (connect_from x (d ∷ ds) l sid p)
  unfolding connect_from
  connect_from-step d ds l p rest = elim (Result-cases (x.open_pipe p.history sid)) [
    | inl (h, o) ↦
        rw (try_connect-ok p h o, connect_from) (rw (try_connect-ok p h o) (ground arith))
    | inr (e, o) ↦
        rw (try_connect-err p e o, connect_from)
          (rw (try_connect-err p e o) (Connected-cons d ds sid p _ (rest e)))
  ]

  connect_from-Connected :
      (d : ℕ) (ds : List ℕ) (l : Option ClientError) (p : Process)
      → Connected (d ∷ ds) p (connect_from x (d ∷ ds) l sid p)
  connect_from-Connected d [] l p =
      connect_from-step d [] l p (λ e. connect_from-last e (refused d p))
  connect_from-Connected d (d' ∷ ds) l p =
      connect_from-step d (d' ∷ ds) l p
        (λ e. connect_from-Connected d' ds (some (io e)) (refused d p))

  -- Connecting makes at most eight attempts and sleeps at most five seconds; when it fails it has
  -- made all eight and slept all five seconds. A success opens one pipe and starts the client's
  -- request numbers at 1; a failure opens none, and never is the `Timeout` that the type provides.
  -- Either way no pipe is closed, nothing is sent, and only the calls made change in the process;
  -- where no pipe was open before, two are never open at once.
  pub connect_bounds : (p : Process) → Connected delays_ms p (connect x sid p)
  unfolding connect
  connect_bounds p = connect_from-Connected 50 _ none p
