-- ===== src/CommandLine/Counts.antt =====
-- What the commands of src/KeePassKeyWin.Provider/src/main.rs send, call by call.
use kee_pass_key_win.Prelude.{
  ℕ, ◌+◌, ◌≤◌, Option, none, some, List, String, Text, Result, ok, err, ◌≡◌, refl, arith, Exec,
  return, ◌>>=◌, subst, Result-cases, inl, inr,
}
use kee_pass_key_win.World.{Externals, RpcRequest, HelloParams}
use kee_pass_key_win.World.Counts.{lines_sent, IsQuiet}
use kee_pass_key_win.Ipc.ClientError.{ClientError}
use kee_pass_key_win.Ipc.Client.{Session, call, handshake, send_line, recv_line}
use kee_pass_key_win.CommandLine.{
  Stop, exited, connect_failed, handshake_failed, create_failed, list_failed, sign_failed,
  delete_failed, create, list, sign, delete, make, step,
}
use kee_pass_key_win.CommandLine.Outside.{CommandExternals}

-- The lines that a command has sent at least and at most, by how it ends; `n` is what a complete run
-- sends.
abbrev pub completed : {A : Type 0} → ℕ → Result Stop A → ℕ
completed n (ok a) = n
completed n (err exited) = 0
completed n (err (connect_failed e)) = 0
completed n (err (handshake_failed e)) = 0
completed n (err (create_failed e)) = 1
completed n (err (list_failed e)) = 2
completed n (err (sign_failed e)) = 3
completed n (err (delete_failed e)) = 4

abbrev pub attempted : {A : Type 0} → ℕ → Result Stop A → ℕ
attempted n (ok a) = n
attempted n (err exited) = 0
attempted n (err (connect_failed e)) = 0
attempted n (err (handshake_failed e)) = 1
attempted n (err (create_failed e)) = 2
attempted n (err (list_failed e)) = 3
attempted n (err (sign_failed e)) = 4
attempted n (err (delete_failed e)) = 5

-- Calls on a session that sent between `lo` and `hi` lines.
pub record Sends (lo hi : ℕ) (s t : Session) : Type 0 where
  pub transport : t.client.transport ≡ s.client.transport
  pub least : lines_sent s.process.history + lo ≤ lines_sent t.process.history
  pub most : lines_sent t.process.history ≤ lines_sent s.process.history + hi
  pub kept : t.process ≡ record s.process { history = t.process.history }
  pub quiet : IsQuiet s.process.history t.process.history

-- A call that succeeds has sent its line.
abbrev pub least_of : {E A : Type 0} → Result E A → ℕ
least_of (ok a) = 1
least_of (err e) = 0

call-Sends :
    {V P R : Type 0} (x : Externals V) (ser : RpcRequest P → Result Text Text)
    (de : V → Result Text R) (method : String) (params : P) (s : Session)
    → let (r, t) = call x ser de method params s in Sends (least_of r) 1 s t
unfolding call send_line recv_line
call-Sends x ser de method params s = ground arith

-- A run after `k` lines, with its result: it has sent the lines that its result tells of, less these.
pub record Counted {A : Type 0} (n k : ℕ) (s : Session) (r : Result Stop A) (t : Session)
    : Type 0 where
  pub transport : t.client.transport ≡ s.client.transport
  pub least : lines_sent s.process.history + completed n r ≤ lines_sent t.process.history + k
  pub most : lines_sent t.process.history + k ≤ lines_sent s.process.history + attempted n r
  pub kept : t.process ≡ record s.process { history = t.process.history }
  pub quiet : IsQuiet s.process.history t.process.history

abbrev pub Counts : {A : Type 0} → ℕ → ℕ → Exec Session Stop A → Type 0
Counts n k m = (s : Session) → let (r, t) = m s in Counted n k s r t

return-Counts : {A : Type 0} (n : ℕ) (a : A) → Counts n n (return a)
return-Counts n a s = ground arith

Counted-trans :
    {A : Type 0} (n k : ℕ) (s t u : Session) (r : Result Stop A)
    → Sends 1 1 s t
    → Counted n (k + 1) t r u
    → Counted n k s r u
Counted-trans n k s t u r a b = ground arith

-- A call that is the next step, and what follows it.
step-Counts :
    {A B : Type 0} (n k : ℕ) (failed : ClientError → Stop) (m : Exec Session ClientError A)
    (f : A → Exec Session Stop B)
    → ((s : Session) → let (r, t) = m s in Sends (least_of r) 1 s t)
    → ((e : ClientError) → completed {A = B} n (err (failed e)) ≡ k)
    → ((e : ClientError) → attempted {A = B} n (err (failed e)) ≡ k + 1)
    → ((a : A) → Counts n (k + 1) (f a))
    → Counts n k (step failed m >>= f)
step-Counts n k failed m f sends c d rest s =
    let sent : (r : Result ClientError _) → (m s).0 ≡ r → Sends (least_of r) 1 s (m s).1 =
      λ r e. subst (λ r. Sends (least_of r) 1 s (m s).1) e (sends s) in
    elim (Result-cases (m s).0) [
      | inl (a, e) ↦ rw e (Counted-trans n k s (m s).1 _ _ (sent (ok a) e) (rest a (m s).1))
      | inr (f, e) ↦ rw e (ground (arith, sent (err f) e, c f, d f))
    ]

module _ {V : Type 0} (x : CommandExternals V) where
  -- `make-credential` after the handshake: each call that fails is the last.
  pub make-Counts : (rp_id user : Text) → Counts 5 1 (make x rp_id user)
  unfolding make create list sign delete
  make-Counts rp_id user =
      step-Counts 5 1 create_failed _ _ (call-Sends x.base _ _ _ _) (λ e. refl) (λ e. refl)
        (λ result.
          step-Counts 5 2 list_failed _ _ (call-Sends x.base _ _ _ _) (λ e. refl) (λ e. refl)
            (λ creds.
              step-Counts 5 3 sign_failed _ _ (call-Sends x.base _ _ _ _) (λ e. refl) (λ e. refl)
                (λ sig.
                  step-Counts 5 4 delete_failed _ _ (call-Sends x.base _ _ _ _) (λ e. refl)
                    (λ e. refl) (λ del. return-Counts 5 _))))

  pub smoke-Counts : Counts 1 1 (λ s. (ok tt, s))
  smoke-Counts = return-Counts 1 tt

  pub handshake-Sends :
      (family : String) (nonce : Text) (key : Option (List ℕ)) (s : Session)
      → let (r, t) = handshake x.base family nonce key s in Sends (least_of r) 1 s t
  unfolding handshake
  handshake-Sends family nonce none s = ground arith
  handshake-Sends family nonce (some k) s =
      let params : HelloParams = record {
        client_pkg_family_name = family;
        handshake_nonce = nonce;
        op_sign_public_key_b64 = x.base.b64_encode k;
      } in
      let r =
        call-Sends x.base x.base.hello_to_string x.base.value_from_value "keepasskeywin.hello"
          params s in
      ground (arith, r)
