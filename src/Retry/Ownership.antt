-- ===== src/Retry/Ownership.antt =====
-- Who owns the plugin's pipe: at any time one pipe is open at most, it is in the state that
-- SHARED_STATE names, and nowhere else.
use kee_pass_key_win.Prelude.{
  ℕ, zero, suc, ◌+◌, ◌≤◌, ◌<◌, Option, none, some, List, [], ◌∷◌, String, ◌≡◌, ◌≢◌, ◌⊎◌, ◌∙◌, sym,
  ap, refl, arith, get_elem?, set, length, length-set, subst, Option-cases, ℕ-cases, inl, inr,
  get_elem?-set_self, get_elem?-set_ne,
}
use kee_pass_key_win.World.{
  Externals, PipeClient, AuthenticatorState, Process, pipe_of, session_of, set_pipe, fresh_process,
}
use kee_pass_key_win.World.Counts.{pipes_opened, pipes_closed, OnePipe}
use kee_pass_key_win.World.Aside.{IsAside, IsBeside, IsAside-IsBeside}
use kee_pass_key_win.Connection.{clear_shared_state}
use kee_pass_key_win.Ipc.Classify.{clear_slot}
use kee_pass_key_win.Ipc.Client.{Session}
use kee_pass_key_win.Ipc.Calls.{OneCall}
use kee_pass_key_win.Retry.{CallOutcome, reconcile_state, take_call_with_retry}
use kee_pass_key_win.Retry.Frame.{IsRetry, orchestrate-IsRetry}

abbrev pub held : Option ℕ → ℕ
held none = 0
held (some arc) = 1

pub record IsOwned (p : Process) : Type 0 where
  pub balance : pipes_opened p.history ≡ pipes_closed p.history + held p.shared_state
  pub one : OnePipe p.history
  pub only :
      (arc : ℕ) (c : PipeClient)
      → pipe_of (get_elem? p.arcs arc) ≡ some c
      → p.shared_state ≡ some arc
  pub cached :
      (arc : ℕ)
      → p.shared_state ≡ some arc
      → (c : PipeClient) × (pipe_of (get_elem? p.arcs arc) ≡ some c)

pub fresh_process-IsOwned : IsOwned fresh_process
fresh_process-IsOwned = record {
  balance = refl;
  one = tt;
  only = λ arc c h. ground arith;
  cached = λ arc h. ground arith;
}

held-le : (s : Option ℕ) → held s ≤ 1
held-le none = omega arith
held-le (some a) = omega arith

pub IsBeside-IsOwned : (p q : Process) → IsBeside p q → IsOwned p → IsOwned q
IsBeside-IsOwned p q a o = record {
  balance = a.quiet.opened ∙ o.balance ∙ cc (a.quiet.closed, a.shared);
  one = a.quiet.one (omega (arith, o.balance, held-le p.shared_state)) o.one;
  only = λ arc c h. a.shared ∙ o.only arc c (cc (h, a.arcs));
  cached = λ arc h. let (c, e) = o.cached arc (sym a.shared ∙ h) in (c, cc (e, a.arcs));
}

pub IsAside-IsOwned : (p q : Process) → IsAside p q → IsOwned p → IsOwned q
IsAside-IsOwned p q a = IsBeside-IsOwned p q (IsAside-IsBeside a)

-- An element that is there is there in bounds.
pub pipe_of-lt :
    (xs : List AuthenticatorState) (i : ℕ) (c : PipeClient)
    → pipe_of (get_elem? xs i) ≡ some c
    → i < length xs
pipe_of-lt [] i c h = ground arith
pipe_of-lt (x ∷ xs) zero c h = omega arith
pipe_of-lt (x ∷ xs) (suc i) c h = omega (arith, pipe_of-lt xs i c h)

pipe_of-set_self :
    (xs : List AuthenticatorState) (arc : ℕ) (s : AuthenticatorState)
    → arc < length xs
    → pipe_of (get_elem? (set xs arc s) arc) ≡ s.pipe
pipe_of-set_self xs arc s h = ap pipe_of (get_elem?-set_self xs arc s h)

only-set :
    (xs : List AuthenticatorState) (arc i : ℕ) (s : AuthenticatorState) (c : PipeClient)
    → pipe_of (get_elem? (set xs arc s) i) ≡ some c
    → (arc ≡ i) ⊎ (pipe_of (get_elem? xs i) ≡ some c)
only-set xs arc i s c h = elim (ℕ-cases arc i) [
  | inl e ↦ inl e
  | inr ne ↦ inr (sym (ap pipe_of (get_elem?-set_ne xs arc i s ne)) ∙ h)
]

empty-set :
    (xs : List AuthenticatorState) (arc : ℕ) (s : AuthenticatorState)
    → s.pipe ≡ none
    → arc < length xs
    → pipe_of (get_elem? (set xs arc s) arc) ≡ none
empty-set xs arc s e h = pipe_of-set_self xs arc s h ∙ e

-- The process while the pipe of `arc`, which is shared, is taken out and `n` pipes are open: no
-- state has a pipe.
pub record IsTaken (arc n : ℕ) (q : Process) : Type 0 where
  pub balance : pipes_opened q.history ≡ pipes_closed q.history + n
  pub one : OnePipe q.history
  pub empty : (i : ℕ) (d : PipeClient) → pipe_of (get_elem? q.arcs i) ≢ some d
  pub shared : q.shared_state ≡ some arc
  pub there : arc < length q.arcs

abbrev with_state : ℕ → Option PipeClient → Process → AuthenticatorState
with_state arc c p = record { session_id = session_of (get_elem? p.arcs arc); pipe = c }

-- Taking the pipe out.
pub set_pipe-IsTaken :
    (arc : ℕ) (p : Process) (c : PipeClient)
    → IsOwned p
    → pipe_of (get_elem? p.arcs arc) ≡ some c
    → IsTaken arc 1 (set_pipe arc none p)
set_pipe-IsTaken arc p c w h =
    let emptied = with_state arc none p in
    let lt = pipe_of-lt p.arcs arc c h in
    record {
      balance = w.balance ∙ ap (λ s. pipes_closed p.history + held s) (w.only arc c h);
      one = w.one;
      empty = λ i d e. elim (ℕ-cases arc i) [
        | inl same ↦ let gone = empty-set p.arcs arc emptied refl lt in ground (arith, gone)
        | inr ne ↦
            let there = sym (ap pipe_of (get_elem?-set_ne p.arcs arc i emptied ne)) ∙ e in
            ground (arith, w.only arc c h, w.only i d there)
      ];
      shared = w.only arc c h;
      there = omega (arith, lt, length-set p.arcs arc emptied);
    }

-- Putting a pipe back.
pub set_pipe-IsOwned :
    (arc : ℕ) (f : PipeClient) (q : Process) → IsTaken arc 1 q → IsOwned (set_pipe arc (some f) q)
set_pipe-IsOwned arc f q t =
    let full = with_state arc (some f) q in
    record {
      balance = t.balance ∙ sym (ap (λ s. pipes_closed q.history + held s) t.shared);
      one = t.one;
      only = λ i d e. elim (only-set q.arcs arc i full d e) [
        | inl same ↦ t.shared ∙ ap some same
        | inr there ↦ absurd (t.empty i d there)
      ];
      cached = λ i e. (
        f,
        subst (λ j. pipe_of (get_elem? (set q.arcs arc full) j) ≡ some f)
            (ground (arith, e, t.shared)) (pipe_of-set_self q.arcs arc full t.there),
      );
    }

-- Putting none back.
pub clear_shared_state-IsOwned :
    (arc : ℕ) (q : Process) → IsTaken arc 0 q → IsOwned (clear_shared_state q)
unfolding clear_shared_state clear_slot
clear_shared_state-IsOwned arc q t = record {
  balance = t.balance;
  one = t.one;
  only = λ i d e. absurd (t.empty i d e);
  cached = λ i e. ground arith;
}

-- What a step may do to a process whose pipe is out: the calls made and the number of open pipes.
pub IsTaken-step :
    {arc n m : ℕ} {p q : Process}
    → IsTaken arc n p
    → q.arcs ≡ p.arcs
    → q.shared_state ≡ p.shared_state
    → pipes_opened q.history ≡ pipes_closed q.history + m
    → OnePipe q.history
    → IsTaken arc m q
IsTaken-step {arc = arc} t a s b o = record {
  balance = b;
  one = o;
  empty = λ i d e. t.empty i d (cc (e, a));
  shared = s ∙ t.shared;
  there = subst (λ (xs : List AuthenticatorState). arc < length xs) (sym a) t.there;
}

module _ {V : Type 0} (x : Externals V) (method : String) (params : V) (arc : ℕ) where
  -- The reconciliation with an outcome, on a process from which the pipe was taken.
  reconcile_state-IsOwned :
      (p : Process) (o : CallOutcome V)
      → IsTaken arc 1 p
      → IsRetry p o
      → IsOwned (reconcile_state x method params arc o)
  unfolding reconcile_state
  reconcile_state-IsOwned p o t k =
      let one = k.one (omega (arith, t.balance)) t.one in
      let arcs = ap (λ (q : Process). q.arcs) k.kept in
      let shared = ap (λ (q : Process). q.shared_state) k.kept in
      elim (Option-cases o.fresh) [
        | inl e ↦
            rw (e, reconcile_state)
              (clear_shared_state-IsOwned arc o.process
                (IsTaken-step t arcs shared (ground (arith, k.balance, e, t.balance)) one))
        | inr (f, e) ↦
            rw (e, reconcile_state)
              (set_pipe-IsOwned arc f o.process
                (IsTaken-step t arcs shared (ground (arith, k.balance, e, t.balance)) one))
      ]

  -- A call with its retry, on any state of the process and whatever comes back, keeps the pipe
  -- owned: at most one is open, in the state that is shared, and nowhere else.
  pub take_call_with_retry-IsOwned :
      (p : Process) → IsOwned p → IsOwned (take_call_with_retry x method params arc p).1
  unfolding take_call_with_retry
  take_call_with_retry-IsOwned p w = elim (Option-cases (pipe_of (get_elem? p.arcs arc))) [
    | inl e ↦ rw (e, take_call_with_retry) w
    | inr (c, h) ↦
        let q = set_pipe arc none p in
        let k = orchestrate-IsRetry x method params c (session_of (get_elem? p.arcs arc)) q in
        rw (h, take_call_with_retry) (reconcile_state-IsOwned q _ (set_pipe-IsTaken arc p c w h) k)
  ]

-- One call on the pipe that is out.
pub OneCall-IsTaken :
    (arc : ℕ) (s t : Session) → OneCall s t → IsTaken arc 1 s.process → IsTaken arc 1 t.process
OneCall-IsTaken arc s t k h =
    IsTaken-step h (ap (λ (q : Process). q.arcs) k.kept)
      (ap (λ (q : Process). q.shared_state) k.kept)
      (omega (arith, h.balance, k.quiet.opened, k.quiet.closed))
      (k.quiet.one (omega (arith, h.balance)) h.one)

-- A pipe that is taken out for one call and put back stays owned.
pub put_back-IsOwned :
    (arc : ℕ) (p : Process) (c : PipeClient)
    → IsOwned p
    → pipe_of (get_elem? p.arcs arc) ≡ some c
    → (t : Session) → OneCall (record { client = c; process = set_pipe arc none p }) t
    → IsOwned (set_pipe arc (some t.client) t.process)
put_back-IsOwned arc p c w h t k =
    set_pipe-IsOwned arc t.client t.process
      (OneCall-IsTaken arc _ t k (set_pipe-IsTaken arc p c w h))
