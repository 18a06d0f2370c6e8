-- ===== src/Flight/Landing.antt =====
-- A flight ends: it has three stages at most before it is answered, and it can land at any time then.
use kee_pass_key_win.Prelude.{
  ℕ, zero, ◌<◌, ◌≤◌, ◌⊎◌, Bool, Option, none, some, List, [], ◌∷◌, Result, ok, err, ◌≡◌, refl,
  arith, Result-cases, Bool-cases, inl, inr, subst, ap, ◌&&◌, if◌then◌else◌, length,
}
use kee_pass_key_win.World.{Externals, PipeClient, Process}
use kee_pass_key_win.Ipc.ClientError.{ClientError}
use kee_pass_key_win.Ipc.Client.{Session, call_value}
use kee_pass_key_win.Connection.{drop_client, connect_and_handshake}
use kee_pass_key_win.Retry.{is_stale}
use kee_pass_key_win.Flight.{
  Stage, calling, reconnecting, retrying, answered, Flight, System, after_call, after_connection,
  advance, advanced, land, landed, Moves, start, next,
}

-- The stages that a flight has before it at most.
abbrev pub left : {V : Type 0} → Stage V → ℕ
left (calling c) = 3
left reconnecting = 2
left (retrying c) = 1
left (answered r fresh) = 0

left-le : {V : Type 0} (s : Stage V) → left s ≤ 3
left-le s = ground arith

module _ {V : Type 0} (x : Externals V) where
  after_call-left :
      (retries : Bool) (r : Result ClientError V × Session) → left (after_call x retries r).0 < 3
  after_call-left retries (r, s) = ground arith

  after_connection-left :
      (r : Result ClientError PipeClient × Process) → left (after_connection x r).0 < 2
  after_connection-left (ok f, p) = omega arith
  after_connection-left (err e, p) = omega arith

  -- Every move of a flight brings it nearer to the answer, whatever the plugin and the system do.
  advance-left :
      (f : Flight V) (stage : Stage V) (p : Process)
      → let after = (advance x f stage p).0 in (left after ≡ 0) ⊎ (left after < left stage)
  unfolding advance
  advance-left f (calling c) p = inr (after_call-left f.retries _)
  advance-left f reconnecting p = inr (after_connection-left _)
  advance-left f (retrying c) p = inl refl
  advance-left f (answered r fresh) p = inl refl

  -- A flight that makes `n` moves, with anything in between: `meanwhile` is what the process has
  -- become before each of them.
  abbrev pub flown : List (Process → Process) → Flight V → Stage V → Process → Stage V × Process
  flown [] f stage p = (stage, p)
  flown (meanwhile ∷ rest) f stage p =
      let (s, q) = advance x f stage (meanwhile p) in flown rest f s q

  flown-left :
      (others : List (Process → Process)) (f : Flight V) (stage : Stage V) (p : Process)
      → left stage ≤ length others
      → left (flown others f stage p).0 ≡ 0
  flown-left [] f stage p h = omega arith
  flown-left (meanwhile ∷ rest) f stage p h = elim (advance-left f stage (meanwhile p)) [
    | inr less ↦ flown-left rest f _ _ (omega arith)
    | inl done ↦ flown-left rest f _ _ (omega arith)
  ]

  -- From wherever it is, a flight is answered after three moves of its own, whatever happens to the
  -- process before each of them and whatever comes back.
  pub flown-answered :
      (f : Flight V) (stage : Stage V) (a b c : Process → Process) (p : Process)
      → left (flown (a ∷ b ∷ c ∷ []) f stage p).0 ≡ 0
  flown-answered f stage a b c p = flown-left (a ∷ b ∷ c ∷ []) f stage p (left-le stage)

  abbrev flying : Flight V → Stage V → List (Flight V) → Process → System V
  flying f stage fs p = record { process = p; flights = record f { stage = stage } ∷ fs }

  -- Moves of the first flight alone: it goes on, or it lands.
  pub data OwnMoves (s : System V) : System V → Type 0 where
    begun : OwnMoves s s
    gone_on :
        (f : Flight V) (fs : List (Flight V)) (p : Process)
        → OwnMoves s (record { process = p; flights = f ∷ fs })
        → OwnMoves s (record {
          process = (advance x f f.stage p).1;
          flights = record f { stage = (advance x f f.stage p).0 } ∷ fs;
        })
    ended :
        (f : Flight V) (fs : List (Flight V)) (p : Process) (r : Result ClientError V)
        (fresh : Option PipeClient)
        → f.stage ≡ answered r fresh
        → OwnMoves s (record { process = p; flights = f ∷ fs })
        → OwnMoves s (record { process = land x f r fresh p; flights = fs })

  -- They are moves of the system.
  OwnMoves-Moves : (s t : System V) → OwnMoves s t → Moves x s t
  OwnMoves-Moves s _ begun = start
  OwnMoves-Moves s _ (gone_on f fs p before) =
      next (record { process = p; flights = f ∷ fs }) _ (OwnMoves-Moves s _ before)
        (advanced zero f refl)
  OwnMoves-Moves s _ (ended f fs p r fresh e before) =
      next (record { process = p; flights = f ∷ fs }) _ (OwnMoves-Moves s _ before)
        (landed zero f r fresh refl e)

  Lands : System V → List (Flight V) → Type 0
  Lands s fs = (q : Process) × OwnMoves s (record { process = q; flights = fs })

  module _ (s : System V) (f : Flight V) (fs : List (Flight V)) where
    moved :
        (stage after : Stage V) (p q : Process)
        → advance x f stage p ≡ (after, q)
        → OwnMoves s (flying f stage fs p)
        → OwnMoves s (flying f after fs q)
    unfolding advance
    moved stage after p q e before =
        subst (λ (r : Stage V × Process). OwnMoves s (flying f r.0 fs r.1)) e
          (gone_on (record f { stage = stage }) fs p before)

    Lands-answered :
        (r : Result ClientError V) (fresh : Option PipeClient) (p : Process)
        → OwnMoves s (flying f (answered r fresh) fs p)
        → Lands s fs
    unfolding Lands
    Lands-answered r fresh p before =
        (_, ended (record f { stage = answered r fresh }) fs p r fresh refl before)

    Lands-retrying :
        (c : PipeClient) (p : Process) → OwnMoves s (flying f (retrying c) fs p) → Lands s fs
    unfolding advance
    Lands-retrying c p before =
        let (r, t) = call_value x f.method f.params (record { client = c; process = p }) in
        Lands-answered r (some t.client) t.process (moved (retrying c) _ p _ refl before)

    Lands-reconnecting : (p : Process) → OwnMoves s (flying f reconnecting fs p) → Lands s fs
    unfolding advance
    Lands-reconnecting p before =
        let (r, q) = connect_and_handshake x f.session_id p in
        elim (Result-cases r) [
          | inl (c, e) ↦
              Lands-retrying c q
                (moved reconnecting _ p q (ap (λ r. after_connection x (r, q)) e) before)
          | inr (e, e') ↦
              Lands-answered (err e) none q
                (moved reconnecting _ p q (ap (λ r. after_connection x (r, q)) e') before)
        ]

    Lands-calling :
        (c : PipeClient) (p : Process) → OwnMoves s (flying f (calling c) fs p) → Lands s fs
    unfolding advance
    Lands-calling c p before =
        let (r, t) = call_value x f.method f.params (record { client = c; process = p }) in
        let ended : Bool → Stage V × Process = λ b.
          if b
          then (reconnecting, drop_client t.client t.process)
          else (answered r (some t.client), t.process) in
        elim (Bool-cases (f.retries && is_stale r)) [
          | inl e ↦
              Lands-reconnecting (drop_client t.client t.process)
                (moved (calling c) _ p _ (ap ended e) before)
          | inr e ↦
              Lands-answered r (some t.client) t.process
                (moved (calling c) _ p _ (ap ended e) before)
        ]

    lands : (stage : Stage V) (p : Process) → OwnMoves s (flying f stage fs p) → Lands s fs
    lands (calling c) p before = Lands-calling c p before
    lands reconnecting p before = Lands-reconnecting p before
    lands (retrying c) p before = Lands-retrying c p before
    lands (answered r fresh) p before = Lands-answered r fresh p before

  -- From any state in which a call is in flight, whatever the plugin and the system answer, moves of
  -- that flight alone lead to one in which it has landed; the other flights are as they were.
  pub Moves-landing :
      (p : Process) (f : Flight V) (fs : List (Flight V))
      → (q : Process) × OwnMoves
          (record { process = p; flights = f ∷ fs })
          (record { process = q; flights = fs })
  unfolding Lands
  Moves-landing p f fs = lands (record { process = p; flights = f ∷ fs }) f fs f.stage p begun
