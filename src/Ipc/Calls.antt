-- ===== src/Ipc/Calls.antt =====
-- What one JSON-RPC call does to the client, to the pipe and to the process, and what it answers.
use kee_pass_key_win.Prelude.{
  ◌+◌, ◌%◌, ◌^◌, ◌≤◌, [], ◌∷◌, String, Text, Result, ok, err, ◌≡◌, refl, ap, ◌++◌, arith,
}
use kee_pass_key_win.World.{IoError, wrote, flushed, line_read, Externals, RpcRequest, RpcResponse}
use kee_pass_key_win.World.Counts.{lines_sent, IsQuiet, IsUncounted, IsSettled, published}
use kee_pass_key_win.Ipc.ClientError.{io}
use kee_pass_key_win.Ipc.Client.{
  Session, request, bump_id, pop_newline, send_line, recv_line, read_response, call,
}

-- A session after one call: the same pipe, the next request number, at most one line sent, no pipe
-- opened or closed, and nothing of the process changed but the calls made.
pub record OneCall (s t : Session) : Type 0 where
  pub transport : t.client.transport ≡ s.client.transport
  pub next_id : t.client.next_id ≡ (s.client.next_id + 1) % 2 ^ 32
  pub kept : t.process ≡ record s.process { history = t.process.history }
  pub sent : lines_sent t.process.history ≤ lines_sent s.process.history + 1
  pub quiet : IsQuiet s.process.history t.process.history
  pub refs : IsUncounted s.process.history t.process.history
  pub settled : IsSettled s.process.history t.process.history
  pub told : published t.process.history ≡ published s.process.history

module _ {V P R : Type 0} (x : Externals V) (ser : RpcRequest P → Result Text Text)
    (de : V → Result Text R) (method : String) (params : P) (s : Session) where
  -- A call, whether it succeeds or fails, keeps the pipe it was made on, takes the next request
  -- number, sends one line at most, opens and closes no pipe, and changes nothing else of the
  -- process but the record of the calls made.
  pub call-OneCall : OneCall s (call x ser de method params s).1
  unfolding call send_line recv_line
  call-OneCall = ground arith

-- The newline that ends a line is taken off, and nothing else.
pub pop_newline-append : (t : Text) → pop_newline (t ++ 10 ∷ []) ≡ t
unfolding pop_newline
pop_newline-append [] = refl
pop_newline-append (c ∷ []) = refl
pop_newline-append (c ∷ d ∷ t) = ap (λ (r : Text). c ∷ r) (pop_newline-append (d ∷ t))

module _ {V P R : Type 0} (x : Externals V) (ser : RpcRequest P → Result Text Text)
    (de : V → Result Text R) (method : String) (params : P) (s : Session) (line : Text)
    (serialized : ser (request x method params s) ≡ ok line) where
  -- When the request goes out and a line comes back that parses, the call has written the request,
  -- a newline, flushed and read one line, in this order, and answers what the response says.
  call_answers :
      (reply : Text) (response : RpcResponse V)
      → let h = s.process.history in
        let t = s.client.transport in
        x.write_all h t line ≡ ok tt
        → x.write_all (wrote t line ∷ h) t (10 ∷ []) ≡ ok tt
        → x.flush (wrote t (10 ∷ []) ∷ wrote t line ∷ h) t ≡ ok tt
        → x.read_line (flushed t ∷ wrote t (10 ∷ []) ∷ wrote t line ∷ h) t ≡ ok (reply ++ 10 ∷ [])
        → x.response_from_str reply ≡ ok response
        → call x ser de method params s ≡ (
          read_response x de response,
          record (bump_id x s) {
            process = record s.process {
              history = line_read t ∷ flushed t ∷ wrote t (10 ∷ []) ∷ wrote t line ∷ h;
            };
          },
        )
  unfolding call send_line recv_line
  call_answers reply response w1 w2 f r p = ground (arith, pop_newline-append reply)

  -- When the request cannot be written, the call answers the I/O error, and neither flushes nor
  -- waits for a response.
  pub call_write_fails :
      (e : IoError)
      → x.write_all s.process.history s.client.transport line ≡ err e
      → call x ser de method params s ≡ (
        err (io e),
        record (bump_id x s) {
          process = record s.process {
            history = wrote s.client.transport line ∷ s.process.history;
          };
        },
      )
  unfolding call send_line recv_line
  call_write_fails e w = ground arith
