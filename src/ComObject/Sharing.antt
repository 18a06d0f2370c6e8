-- ===== src/ComObject/Sharing.antt =====
-- Activations share one state, and keep the plugin's pipe owned.
use kee_pass_key_win.Prelude.{
  ℕ, ◌+◌, zero, suc, none, some, List, [], ◌∷◌, ◌++◌, Result, ok, err, to_option, ◌≡◌, ◌∙◌, subst,
  sym, ap, refl, ◌⊎◌, inl, inr, arith, length, get_elem?, get_elem?-append_self, Option-cases,
}
use kee_pass_key_win.World.{Guid, Externals, PipeClient, AuthenticatorState, Process, pipe_of}
use kee_pass_key_win.World.Counts.{pipes_closed}
use kee_pass_key_win.World.Aside.{IsBeside}
use kee_pass_key_win.Ipc.ClientError.{ClientError}
use kee_pass_key_win.Connection.{connect_and_handshake}
use kee_pass_key_win.Connection.Frame.{Balance, IsConnecting, connect_and_handshake-frame}
use kee_pass_key_win.Retry.Ownership.{IsOwned, IsBeside-IsOwned, held}
use kee_pass_key_win.ComObject.{
  ClassFactory, Chosen, allocate_state, hand_over, choose_state, cf_create_instance,
}

-- An element of a list with one more at the end is an old one or the new one.
pipe_of-append :
    (xs : List AuthenticatorState) (s : AuthenticatorState) (i : ℕ) (c : PipeClient)
    → pipe_of (get_elem? (xs ++ s ∷ []) i) ≡ some c
    → (pipe_of (get_elem? xs i) ≡ some c) ⊎ ((i ≡ length xs) × (s.pipe ≡ some c))
pipe_of-append [] s zero c h = inr (refl, h)
pipe_of-append [] s (suc i) c h = ground (arith, h)
pipe_of-append (y ∷ xs) s zero c h = inl h
pipe_of-append (y ∷ xs) s (suc i) c h = elim (pipe_of-append xs s i c h) [
  | inl e ↦ inl e
  | inr (e, f) ↦ inr (ap suc e, f)
]

module _ (p : Process) (w : IsOwned p) (empty : p.shared_state ≡ none) where
  -- Without a shared state no state has a pipe.
  no_pipe : (i : ℕ) (c : PipeClient) → pipe_of (get_elem? p.arcs i) ≡ some c → ⊥
  no_pipe i c h = ground (arith, w.only i c h, empty)

  allocate_state-IsOwned :
      (sid : ℕ) (r : Result ClientError PipeClient) (q : Process)
      → Balance p (r, q)
      → IsConnecting p q
      → IsOwned (allocate_state sid (to_option r) q).1
  unfolding allocate_state
  allocate_state-IsOwned sid (ok c) q b k =
      let arcs : q.arcs ≡ p.arcs = ap (λ (q : Process). q.arcs) k.kept in
      let bal = w.balance ∙ ap (λ s. pipes_closed p.history + held s) empty in
      let allocated : AuthenticatorState = record { session_id = sid; pipe = some c } in
      record {
        balance = omega (arith, b, bal);
        one = k.one (omega (arith, bal)) w.one;
        only = λ i d h. elim (pipe_of-append q.arcs _ i d h) [
          | inl e ↦ absurd (no_pipe i d (cc (e, arcs)))
          | inr (e, f) ↦ ap some (sym e)
        ];
        cached = λ i h. (
          c,
          subst (λ j. pipe_of (get_elem? (q.arcs ++ allocated ∷ []) j) ≡ some c) (ground (arith, h))
              (ap pipe_of (get_elem?-append_self q.arcs allocated)),
        );
      }
  allocate_state-IsOwned sid (err e) q b k =
      let arcs : q.arcs ≡ p.arcs = ap (λ (q : Process). q.arcs) k.kept in
      let shared : q.shared_state ≡ none = ap (λ (q : Process). q.shared_state) k.kept ∙ empty in
      let bal = w.balance ∙ ap (λ s. pipes_closed p.history + held s) empty in
      record {
        balance = omega (arith, b, bal, ap held shared);
        one = k.one (omega (arith, bal)) w.one;
        only = λ i d h. elim (pipe_of-append q.arcs _ i d h) [
          | inl e ↦ absurd (no_pipe i d (cc (e, arcs)))
          | inr (e, f) ↦ ground (arith, f)
        ];
        cached = λ i h. ground (arith, h, shared);
      }

pub hand_over-IsBeside :
    (riid : Guid) (c : Chosen) (p : Process) → IsBeside p (hand_over riid (c, p)).1
unfolding hand_over
hand_over-IsBeside riid c p = ground arith

module _ {V : Type 0} (x : Externals V) where
  pub choose_state-empty :
      (sid : ℕ) (p : Process)
      → p.shared_state ≡ none
      → choose_state x sid p
        ≡ (let (r, q) = connect_and_handshake x sid p in allocate_state sid (to_option r) q)
  unfolding choose_state
  choose_state-empty sid p e = simp (e, choose_state)

  pub choose_state-shared :
      (sid : ℕ) (p : Process) (s : ℕ)
      → p.shared_state ≡ some s
      → choose_state x sid p ≡ (record { state = s; spawned = none }, p)
  unfolding choose_state
  choose_state-shared sid p s e = simp (e, choose_state)

  choose_state-IsOwned : (sid : ℕ) (p : Process) → IsOwned p → IsOwned (choose_state x sid p).1
  choose_state-IsOwned sid p w = elim (Option-cases p.shared_state) [
    | inl e ↦
        let (r, q) = connect_and_handshake x sid p in
        let (b, k) = connect_and_handshake-frame x sid p in
        let a = allocate_state-IsOwned p w e sid r q b k in
        subst (λ (c : Chosen × Process). IsOwned c.1) (sym (choose_state-empty sid p e)) a
    | inr (s, e) ↦
        subst (λ (c : Chosen × Process). IsOwned c.1) (sym (choose_state-shared sid p s e)) w
  ]

  -- An activation, whether it connects or not, keeps the pipe owned: where a state is shared it
  -- makes no connection, and where none is, no pipe was open.
  pub cf_create_instance-IsOwned :
      (f : ClassFactory) (riid : Guid) (p : Process)
      → IsOwned p
      → IsOwned (cf_create_instance x f riid p).1
  unfolding cf_create_instance
  cf_create_instance-IsOwned f riid p w =
      let (c, q) = choose_state x f.session_id p in
      IsBeside-IsOwned q _ (hand_over-IsBeside riid c q) (choose_state-IsOwned f.session_id p w)
