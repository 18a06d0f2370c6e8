-- ===== src/Server/Spares.antt =====
-- A state that has lost its pipe, or never had one, does not get one again, and no state is given up.
use kee_pass_key_win.Prelude.{
  ℕ, ◌≤◌, ◌<◌, ◌≡◌, ◌≢◌, ◌∙◌, sym, ap, refl, subst, arith, none, some, List, [], ◌∷◌, ◌++◌, String,
  Result, ok, err, ℕ-cases, Option-cases, inl, inr, get_elem?, length, length-set, length-append,
  get_elem?-set_ne, get_elem?-append_lt, to_option,
}
use kee_pass_key_win.World.{Guid, Externals, PipeClient, AuthenticatorState}
use kee_pass_key_win.World.{Process, pipe_of, session_of, set_pipe}
use kee_pass_key_win.Ipc.Classify.{clear_slot}
use kee_pass_key_win.Ipc.ClientError.{ClientError}
use kee_pass_key_win.Ipc.Client.{call_value}
use kee_pass_key_win.Connection.{clear_shared_state, connect_and_handshake}
use kee_pass_key_win.Connection.Frame.{connect_and_handshake-frame}
use kee_pass_key_win.Retry.{CallOutcome, orchestrate, reconcile_state, take_call_with_retry}
use kee_pass_key_win.Retry.Frame.{call_value-OneCall, orchestrate-IsRetry}
use kee_pass_key_win.ComObject.{Chosen, ClassFactory, allocate_state, choose_state}
use kee_pass_key_win.ComObject.{cf_create_instance}
use kee_pass_key_win.ComObject.Sharing.{choose_state-empty, choose_state-shared, hand_over-IsBeside}
use kee_pass_key_win.Server.{
  Step, activate, lock_server, released, reconciled, made, asserted, cancelled, asked, Run, start,
  next,
}
use kee_pass_key_win.Server.Runs.{cf_lock_server-IsBeside, release-IsBeside}
use kee_pass_key_win.Server.Traced.{
  Traced, task_session, reconcile_vault_with_os-traced, make_credential-traced,
  get_assertion-traced, cancel_operation-traced, get_lock_status-traced,
}

-- No state is given up, and none that has no pipe gets one.
pub record EmptyKept (xs ys : List AuthenticatorState) : Type 0 where
  pub grown : length xs ≤ length ys
  pub empty :
      (i : ℕ) → i < length xs → pipe_of (get_elem? xs i) ≡ none → pipe_of (get_elem? ys i) ≡ none

EmptyKept-same : (xs ys : List AuthenticatorState) → ys ≡ xs → EmptyKept xs ys
EmptyKept-same xs ys e = record {
  grown = omega (arith, ap (λ (zs : List AuthenticatorState). length zs) e);
  empty = λ i h k. ap (λ (zs : List AuthenticatorState). pipe_of (get_elem? zs i)) e ∙ k;
}

-- Changes of one state that has a pipe.
EmptyKept-elsewhere :
    (xs ys : List AuthenticatorState) (arc : ℕ) (c : PipeClient)
    → pipe_of (get_elem? xs arc) ≡ some c
    → length ys ≡ length xs
    → ((i : ℕ) → arc ≢ i → get_elem? ys i ≡ get_elem? xs i)
    → EmptyKept xs ys
EmptyKept-elsewhere xs ys arc c h n other = record {
  grown = omega (arith, n);
  empty = λ i lt k. elim (ℕ-cases arc i) [
    | inl same ↦
        let there = subst (λ j. pipe_of (get_elem? xs j) ≡ some c) same h in
        ground (arith, there, k)
    | inr ne ↦ ap pipe_of (other i ne) ∙ k
  ];
}

EmptyKept-append :
    (xs : List AuthenticatorState) (s : AuthenticatorState) → EmptyKept xs (xs ++ s ∷ [])
EmptyKept-append xs s = record {
  grown = omega (arith, length-append xs (s ∷ []));
  empty = λ i lt k. ap pipe_of (get_elem?-append_lt xs (s ∷ []) i lt) ∙ k;
}

EmptyKept-trans :
    {xs ys zs : List AuthenticatorState} → EmptyKept xs ys → EmptyKept ys zs → EmptyKept xs zs
EmptyKept-trans a b = record {
  grown = omega (arith, a.grown, b.grown);
  empty = λ i h k. b.empty i (omega (arith, h, a.grown)) (a.empty i h k);
}

abbrev pub Spares : Process → Process → Type 0
Spares p q = EmptyKept p.arcs q.arcs

module _ (arc : ℕ) (p : Process) (c : PipeClient)
    (held : pipe_of (get_elem? p.arcs arc) ≡ some c) where
  abbrev emptied : Process
  emptied = set_pipe arc none p

  -- The states of a process in which only that of `arc` may have changed.
  kept_elsewhere : (i : ℕ) → arc ≢ i → get_elem? emptied.arcs i ≡ get_elem? p.arcs i
  kept_elsewhere i ne = get_elem?-set_ne p.arcs arc i _ ne

  left_empty : (q : Process) → q.arcs ≡ emptied.arcs → Spares p q
  left_empty q e =
      let n = ap (λ (zs : List AuthenticatorState). length zs) e in
      EmptyKept-elsewhere p.arcs q.arcs arc c held (n ∙ length-set p.arcs arc _)
        (λ i ne. ap (λ (zs : List AuthenticatorState). get_elem? zs i) e ∙ kept_elsewhere i ne)

  put_back :
      (d : PipeClient) (q : Process) → q.arcs ≡ emptied.arcs → Spares p (set_pipe arc (some d) q)
  put_back d q e =
      let n = ap (λ (zs : List AuthenticatorState). length zs) e in
      EmptyKept-elsewhere p.arcs (set_pipe arc (some d) q).arcs arc c held
        (length-set q.arcs arc _ ∙ n ∙ length-set p.arcs arc _)
        (λ i ne.
          get_elem?-set_ne q.arcs arc i _ ne
          ∙ ap (λ (zs : List AuthenticatorState). get_elem? zs i) e
          ∙ kept_elsewhere i ne)

module _ {V : Type 0} (x : Externals V) where
  reconcile_state-Spares :
      (method : String) (params : V) (arc : ℕ) (p : Process) (c : PipeClient) (o : CallOutcome V)
      → pipe_of (get_elem? p.arcs arc) ≡ some c
      → o.process.arcs ≡ (set_pipe arc none p).arcs
      → Spares p (reconcile_state x method params arc o)
  unfolding reconcile_state clear_shared_state clear_slot
  reconcile_state-Spares method params arc p c o held e = elim (Option-cases o.fresh) [
    | inl f ↦ rw (f, reconcile_state) (left_empty arc p c held (clear_shared_state o.process) e)
    | inr (d, f) ↦ rw (f, reconcile_state) (put_back arc p c held d o.process e)
  ]

  take_call_with_retry-Spares :
      (method : String) (params : V) (arc : ℕ) (p : Process)
      → Spares p (take_call_with_retry x method params arc p).1
  unfolding take_call_with_retry
  take_call_with_retry-Spares method params arc p =
      elim (Option-cases (pipe_of (get_elem? p.arcs arc))) [
        | inl e ↦ rw (e, take_call_with_retry) (EmptyKept-same p.arcs p.arcs refl)
        | inr (c, h) ↦
            let q = set_pipe arc none p in
            let k = orchestrate-IsRetry x method params c (session_of (get_elem? p.arcs arc)) q in
            rw (h, take_call_with_retry)
              (reconcile_state-Spares method params arc p c
                (orchestrate x method params c (session_of (get_elem? p.arcs arc)) q) h
                (ap (λ (q : Process). q.arcs) k.kept))
      ]

  spares : Traced x Spares
  spares = record {
    along = λ a b. EmptyKept-trans a b;
    aside = λ a. EmptyKept-same _ _ a.arcs;
    retried = take_call_with_retry-Spares;
    called = λ method params arc p c h.
        let s = task_session arc c p in
        let t = (call_value x method params s).1 in
        put_back arc p c h t.client t.process
          (ap (λ (q : Process). q.arcs) (call_value-OneCall x method params s).kept);
  }

  allocate_state-EmptyKept :
      (session_id : ℕ) (r : Result ClientError PipeClient) (p q : Process)
      → q.arcs ≡ p.arcs
      → Spares p (allocate_state session_id (to_option r) q).1
  unfolding allocate_state
  allocate_state-EmptyKept sid (ok c) p q e =
      EmptyKept-trans (EmptyKept-same p.arcs q.arcs e) (EmptyKept-append q.arcs _)
  allocate_state-EmptyKept sid (err f) p q e =
      EmptyKept-trans (EmptyKept-same p.arcs q.arcs e) (EmptyKept-append q.arcs _)

  choose_state-Spares : (session_id : ℕ) (p : Process) → Spares p (choose_state x session_id p).1
  choose_state-Spares sid p = elim (Option-cases p.shared_state) [
    | inl e ↦
        let (r, q) = connect_and_handshake x sid p in
        let (b, k) = connect_and_handshake-frame x sid p in
        let a = allocate_state-EmptyKept sid r p q (ap (λ (q : Process). q.arcs) k.kept) in
        subst (λ (c : Chosen × Process). Spares p c.1) (sym (choose_state-empty x sid p e)) a
    | inr (s, e) ↦
        subst (λ (c : Chosen × Process). Spares p c.1) (sym (choose_state-shared x sid p s e))
          (EmptyKept-same p.arcs p.arcs refl)
  ]

  pub cf_create_instance-Spares :
      (f : ClassFactory) (riid : Guid) (p : Process) → Spares p (cf_create_instance x f riid p).1
  unfolding cf_create_instance
  cf_create_instance-Spares f riid p =
      let (c, q) = choose_state x f.session_id p in
      EmptyKept-trans (choose_state-Spares f.session_id p)
        (EmptyKept-same q.arcs _ (hand_over-IsBeside riid c q).arcs)

  Step-Spares : (p q : Process) → Step x p q → Spares p q
  Step-Spares p _ (activate f riid) = cf_create_instance-Spares f riid p
  Step-Spares p _ (lock_server l) = EmptyKept-same p.arcs _ (cf_lock_server-IsBeside l p).arcs
  Step-Spares p _ (released o) = EmptyKept-same p.arcs _ (release-IsBeside o p).arcs
  Step-Spares p _ (reconciled arc) = reconcile_vault_with_os-traced x Spares spares arc p
  Step-Spares p _ (made arc req) = make_credential-traced x Spares spares arc req p
  Step-Spares p _ (asserted arc req) = get_assertion-traced x Spares spares arc req p
  Step-Spares p _ (cancelled arc txn) = cancel_operation-traced x Spares spares arc txn p
  Step-Spares p _ (asked arc) = get_lock_status-traced x Spares spares arc p

  pub Run-Spares : (p q : Process) → Run x p q → Spares p q
  Run-Spares p _ start = EmptyKept-same p.arcs p.arcs refl
  Run-Spares p _ (next q r before step) =
      EmptyKept-trans (Run-Spares p q before) (Step-Spares q r step)
