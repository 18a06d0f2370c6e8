-- ===== src/Retry/Frame.antt =====
-- What the retry leaves of the process: which pipes are open and who holds them.
use kee_pass_key_win.Prelude.{
  ℕ, ◌+◌, ◌≤◌, Option, none, some, String, Result, ok, err, ◌≡◌, arith, Bool-cases, inl, inr,
}
use kee_pass_key_win.World.{Externals, PipeClient, Process}
use kee_pass_key_win.World.Counts.{
  attempts, pipes_opened, pipes_closed, lines_sent, OnePipe, IsUncounted, IsSettled, published,
}
use kee_pass_key_win.Ipc.ClientError.{ClientError}
use kee_pass_key_win.Ipc.Client.{Session, call_value}
use kee_pass_key_win.Ipc.Calls.{OneCall, call-OneCall}
use kee_pass_key_win.Connection.{drop_client, connect_and_handshake}
use kee_pass_key_win.Connection.Frame.{Balance, IsConnecting, connect_and_handshake-frame}
use kee_pass_key_win.Retry.{CallOutcome, is_stale, retry, after_first, orchestrate}

-- The pipes that an outcome leaves open, from a process `p` with one open pipe.
abbrev alive : Option PipeClient → ℕ
alive none = 0
alive (some c) = 1

-- At most three lines are sent and eight attempts made; the one pipe that was open is still open,
-- or is replaced by a fresh one, or is closed with none in its place; two are never open at once.
pub record IsRetry {V : Type 0} (p : Process) (o : CallOutcome V) : Type 0 where
  pub sent : lines_sent o.process.history ≤ lines_sent p.history + 3
  pub tried : attempts o.process.history ≤ attempts p.history + 8
  pub balance :
      pipes_opened o.process.history + pipes_closed p.history + 1
      ≡ pipes_opened p.history + pipes_closed o.process.history + alive o.fresh
  pub kept :
      o.process ≡ record p { history = o.process.history; op_sign_key = o.process.op_sign_key }
  pub one :
      pipes_opened p.history ≤ pipes_closed p.history + 1
      → OnePipe p.history
      → OnePipe o.process.history
  pub refs : IsUncounted p.history o.process.history
  pub settled : IsSettled p.history o.process.history
  pub told : published o.process.history ≡ published p.history

module _ {V : Type 0} (x : Externals V) (method : String) (params : V) where
  pub call_value-OneCall : (s : Session) → OneCall s (call_value x method params s).1
  unfolding call_value
  call_value-OneCall s = call-OneCall x x.request_to_string x.value_from_value method params s

  retry-IsRetry :
      (p : Process) (c : PipeClient) (s : Session) (r : Result ClientError PipeClient × Process)
      → OneCall (record { client = c; process = p }) s
      → Balance (drop_client s.client s.process) r
      → IsConnecting (drop_client s.client s.process) r.1
      → IsRetry p (retry x method params r)
  unfolding retry drop_client
  retry-IsRetry p c s (err e, q) h b k = ground arith
  retry-IsRetry p c s (ok f, q) h b k =
      let s : Session = record { client = f; process = q } in ground (arith, call_value-OneCall s)

  after_first-IsRetry :
      (p : Process) (c : PipeClient) (sid : ℕ) (r : Result ClientError V) (s : Session)
      → OneCall (record { client = c; process = p }) s
      → IsRetry p (after_first x method params sid (r, s))
  unfolding after_first
  after_first-IsRetry p c sid r s h = elim (Bool-cases (is_stale r)) [
    | inl dead ↦
        let d = drop_client s.client s.process in
        let (b, k) = connect_and_handshake-frame x sid d in
        rw (dead, after_first) (retry-IsRetry p c s (connect_and_handshake x sid d) h b k)
    | inr live ↦ rw (live, after_first) (ground arith)
  ]

  -- The whole of the call with its retry, on one open pipe.
  pub orchestrate-IsRetry :
      (c : PipeClient) (sid : ℕ) (p : Process) → IsRetry p (orchestrate x method params c sid p)
  unfolding orchestrate
  orchestrate-IsRetry c sid p =
      let s : Session = record { client = c; process = p } in
      let (r, t) = call_value x method params s in
      after_first-IsRetry p c sid r t (call_value-OneCall s)
