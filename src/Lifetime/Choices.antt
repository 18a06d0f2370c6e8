-- ===== src/Lifetime/Choices.antt =====
-- The state that an activation chooses is allocated, and new if it is to be reconciled.
use kee_pass_key_win.Prelude.{
  ℕ, ◌≤◌, ◌<◌, ◌≡◌, ap, sym, subst, arith, Option, none, some, List, [], ◌∷◌, Result, ok, err,
  to_option, length, length-append, Option-cases, inl, inr,
}
use kee_pass_key_win.World.{Guid, Externals, PipeClient, AuthenticatorState, Process}
use kee_pass_key_win.Ipc.ClientError.{ClientError}
use kee_pass_key_win.Connection.{connect_and_handshake}
use kee_pass_key_win.Connection.Frame.{connect_and_handshake-frame}
use kee_pass_key_win.Retry.Ownership.{IsOwned, pipe_of-lt}
use kee_pass_key_win.ComObject.{
  Chosen, add_ref, allocate_state, choose_state, hand_over, new_object, query_interface,
}
use kee_pass_key_win.ComObject.Sharing.{choose_state-empty, choose_state-shared}
use kee_pass_key_win.Lifetime.{Lent, lend}
use kee_pass_key_win.Lifetime.States.{AllWithin}

-- A spawned task is for a state that was allocated just now.
abbrev pub New : Process → Process → Option ℕ → Type 0
New p q none = Unit
New p q (some a) = (length p.arcs ≤ a) × (a < length q.arcs)

abbrev pub Choice : Process → Chosen × Process → Type 0
Choice p (c, q) = (c.state < length q.arcs) × (length p.arcs ≤ length q.arcs) × New p q c.spawned

allocate_state-Choice :
    (session_id : ℕ) (r : Result ClientError PipeClient) (p q : Process)
    → q.arcs ≡ p.arcs
    → Choice p (allocate_state session_id (to_option r) q)
unfolding allocate_state
allocate_state-Choice sid (ok c) p q e =
    let same = ap (λ (zs : List AuthenticatorState). length zs) e in
    let longer = length-append q.arcs (record { session_id = sid; pipe = some c } ∷ []) in
    (
      omega (arith, longer),
      omega (arith, same, longer),
      (omega (arith, same), omega (arith, longer)),
    )
allocate_state-Choice sid (err f) p q e =
    let same = ap (λ (zs : List AuthenticatorState). length zs) e in
    let longer = length-append q.arcs (record { session_id = sid; pipe = none } ∷ []) in
    (omega (arith, longer), omega (arith, same, longer), tt)

-- The object that is handed out holds the chosen state.
pub hand_over-state :
    (n : ℕ) (riid : Guid) (c : Chosen) (p : Process) (ls : List Lent)
    → c.state < n
    → AllWithin n ls
    → let created = (hand_over riid (c, p)).0 in
      AllWithin n (lend created.object ls) × (created.spawned ≡ c.spawned)
unfolding hand_over new_object query_interface add_ref
hand_over-state n riid c p ls h k = ground arith

module _ {V : Type 0} (x : Externals V) where
  pub choose_state-Choice :
      (session_id : ℕ) (p : Process) → IsOwned p → Choice p (choose_state x session_id p)
  choose_state-Choice sid p w = elim (Option-cases p.shared_state) [
    | inl e ↦
        let (r, q) = connect_and_handshake x sid p in
        let (b, k) = connect_and_handshake-frame x sid p in
        let a = allocate_state-Choice sid r p q (ap (λ (q : Process). q.arcs) k.kept) in
        subst (Choice p) (sym (choose_state-empty x sid p e)) a
    | inr (s, e) ↦
        let (c, h) = w.cached s e in
        let there = pipe_of-lt p.arcs s c h in
        subst (Choice p) (sym (choose_state-shared x sid p s e)) (there, omega arith, tt)
  ]
