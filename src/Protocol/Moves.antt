-- ===== src/Protocol/Moves.antt =====
-- However the threads interleave, what is said on the pipe keeps to the protocol.
use kee_pass_key_win.Prelude.{
  ℕ, zero, suc, Bool, Option, none, some, List, [], ◌∷◌, String, Result, ◌≡◌, ap, sym, subst, arith,
  get_elem?, set, Option-cases, inl, inr,
}
use kee_pass_key_win.World.{Guid, Externals, PipeClient, Process, fresh_process, pipe_of, set_pipe}
use kee_pass_key_win.World.Aside.{IsBeside}
use kee_pass_key_win.World.Transcript.{transcript}
use kee_pass_key_win.Ipc.ClientError.{ClientError}
use kee_pass_key_win.Connection.{connect_and_handshake}
use kee_pass_key_win.ComObject.{ClassFactory, cf_create_instance, choose_state}
use kee_pass_key_win.ComObject.Sharing.{choose_state-shared, choose_state-empty, hand_over-IsBeside}
use kee_pass_key_win.Flight.{
  Stage, answered, Flight, System, take_off, advance, land, Move, taken, advanced, landed, aside,
  activated, Moves, start, next,
}
use kee_pass_key_win.Flight.Exclusive.{Exclusive, Move-Exclusive}
use kee_pass_key_win.Flight.Exclusion.{fresh_system}
use kee_pass_key_win.Retry.Ownership.{fresh_process-IsOwned}
use kee_pass_key_win.Protocol.{Conforms, Talks}
use kee_pass_key_win.Protocol.Connecting.{Talks-spoken, connect_and_handshake-Leaves}
use kee_pass_key_win.Prelude.{without, ◌∙◌, ◌<◌, length, refl}
use kee_pass_key_win.Protocol.Stages.{
  phase_of, pipe_in, pipe_at, shared_pipe, advance-Talks, land-Talks, allocate_state-Talks,
}
use kee_pass_key_win.Connection.Frame.{connect_and_handshake-frame}
use kee_pass_key_win.ComObject.{Chosen}

-- The protocol is kept to, and is where the pipe is held: in the shared state, or by the one flight.
abbrev pub Speaking : {V : Type 0} → Externals V → List (Flight V) → Process → Type 0
Speaking x [] p = Talks x (phase_of (shared_pipe p)) p.history
Speaking x (f ∷ []) p = Talks x (phase_of (pipe_in f.stage)) p.history
Speaking x (f ∷ g ∷ fs) p = Unit

module _ {V : Type 0} (x : Externals V) where
  taken-Speaking :
      (fs : List (Flight V)) (p : Process) (arc : ℕ) (retries : Bool) (method : String) (params : V)
      (c : PipeClient)
      → pipe_of (get_elem? p.arcs arc) ≡ some c
      → Exclusive fs p
      → Speaking x fs p
      → Speaking x (take_off arc retries method params c p ∷ fs) (set_pipe arc none p)
  unfolding take_off
  taken-Speaking [] p arc retries method params c h w t =
      let here : shared_pipe p ≡ some c = ap (λ s. pipe_at s p.arcs) (w.only arc c h) ∙ h in
      subst (λ o. Talks x (phase_of o) p.history) here t
  taken-Speaking (f ∷ fs) p arc retries method params c h w t = tt

  advanced-Speaking :
      (fs : List (Flight V)) (p : Process) (i : ℕ) (f : Flight V)
      → get_elem? fs i ≡ some f
      → Speaking x fs p
      → let (stage, q) = advance x f f.stage p in
        Speaking x (set fs i (record f { stage = stage })) q
  advanced-Speaking [] p i f h t = ground (arith, h)
  advanced-Speaking (g ∷ []) p (suc i) f h t = ground (arith, h)
  advanced-Speaking (g ∷ []) p zero f h t =
      let same : g ≡ f = ground (arith, h) in
      advance-Talks x f f.stage p
        (subst (λ (f : Flight V). Talks x (phase_of (pipe_in f.stage)) p.history) same t)
  advanced-Speaking (g ∷ k ∷ fs) p zero f h t = tt
  advanced-Speaking (g ∷ k ∷ fs) p (suc zero) f h t = tt
  advanced-Speaking (g ∷ k ∷ fs) p (suc (suc i)) f h t = tt

  landed-Speaking :
      (fs : List (Flight V)) (p : Process) (i : ℕ) (f : Flight V) (r : Result ClientError V)
      (fresh : Option PipeClient)
      → get_elem? fs i ≡ some f
      → f.stage ≡ answered r fresh
      → Exclusive fs p
      → Speaking x fs p
      → Speaking x (without i fs) (land x f r fresh p)
  landed-Speaking [] p i f r fresh h e w t = ground (arith, h)
  landed-Speaking (g ∷ []) p (suc i) f r fresh h e w t = ground (arith, h)
  landed-Speaking (g ∷ []) p zero f r fresh h e w t =
      let same : g ≡ f = ground (arith, h) in
      let t' = subst (λ (f : Flight V). Talks x (phase_of (pipe_in f.stage)) p.history) same t in
      land-Talks x f r fresh p (subst (λ (f : Flight V). p.shared_state ≡ some f.arc) same w.shared)
        (subst (λ (f : Flight V). f.arc < length p.arcs) same w.there)
        (subst (λ (s : Stage V). Talks x (phase_of (pipe_in s)) p.history) e t')
  landed-Speaking (g ∷ k ∷ fs) p i f r fresh h e w t = absurd w

  pub aside-Speaking :
      (fs : List (Flight V)) (p q : Process) → IsBeside p q → Speaking x fs p → Speaking x fs q
  aside-Speaking [] p q a t =
      let same : shared_pipe p ≡ shared_pipe q =
        sym (ap (λ s. pipe_at s q.arcs) a.shared ∙ ap (pipe_at p.shared_state) a.arcs) in
      subst (λ o. Talks x (phase_of o) q.history) same (Talks-spoken x _ p q a.spoken t)
  aside-Speaking (f ∷ []) p q a t = Talks-spoken x _ p q a.spoken t
  aside-Speaking (f ∷ g ∷ fs) p q a t = t

  choose_state-Speaking :
      (sid : ℕ) (p : Process) → Speaking x [] p → Speaking x [] (choose_state x sid p).1
  choose_state-Speaking sid p t = elim (Option-cases p.shared_state) [
    | inl e ↦
        let (r, q) = connect_and_handshake x sid p in
        let (b, k) = connect_and_handshake-frame x sid p in
        let none_shared = ap (λ (q : Process). q.shared_state) k.kept ∙ e in
        let left =
          connect_and_handshake-Leaves x sid p
            (subst (λ o. Talks x (phase_of o) p.history) (ap (λ s. pipe_at s p.arcs) e) t) in
        subst (λ (c : Chosen × Process). Speaking x [] c.1) (sym (choose_state-empty x sid p e))
          (allocate_state-Talks x sid r q none_shared left)
    | inr (s, e) ↦
        subst (λ (c : Chosen × Process). Speaking x [] c.1) (sym (choose_state-shared x sid p s e))
          t
  ]

  activated-Speaking :
      (fs : List (Flight V)) (p : Process) (f : ClassFactory) (riid : Guid)
      → Exclusive fs p
      → Speaking x fs p
      → Speaking x fs (cf_create_instance x f riid p).1
  unfolding cf_create_instance
  activated-Speaking [] p f riid w t =
      let (c, q) = choose_state x f.session_id p in
      aside-Speaking [] q _ (hand_over-IsBeside riid c q) (choose_state-Speaking f.session_id p t)
  activated-Speaking (g ∷ []) p f riid w t =
      let (c, q) = choose_state x f.session_id p in
      let same : q ≡ p = ap (λ r. r.1) (choose_state-shared x f.session_id p g.arc w.shared) in
      aside-Speaking (g ∷ []) q _ (hand_over-IsBeside riid c q)
        (subst (Speaking x (g ∷ [])) (sym same) t)
  activated-Speaking (g ∷ h ∷ fs) p f riid w t = t

  Move-Speaking :
      (s t : System V)
      → Move x s t
      → Exclusive s.flights s.process
      → Speaking x s.flights s.process
      → Speaking x t.flights t.process
  Move-Speaking s _ (taken arc retries method params c h) w t =
      taken-Speaking s.flights s.process arc retries method params c h w t
  Move-Speaking s _ (advanced i f h) w t = advanced-Speaking s.flights s.process i f h t
  Move-Speaking s _ (landed i f r fresh h e) w t =
      landed-Speaking s.flights s.process i f r fresh h e w t
  Move-Speaking s _ (aside q a tidy) w t = aside-Speaking s.flights s.process q a t
  Move-Speaking s _ (activated f riid) w t = activated-Speaking s.flights s.process f riid w t

  pub Moves-Speaking :
      (s t : System V)
      → Moves x s t
      → Exclusive s.flights s.process
      → Speaking x s.flights s.process
      → Exclusive t.flights t.process × Speaking x t.flights t.process
  Moves-Speaking s _ start w k = (w, k)
  Moves-Speaking s _ (next t u before m) w k =
      let (w', k') = Moves-Speaking s t before w k in
      (Move-Exclusive x t u m w', Move-Speaking t u m w' k')

  pub Speaking-Conforms :
      (fs : List (Flight V)) (p : Process)
      → Exclusive fs p
      → Speaking x fs p
      → Conforms x (transcript p.history)
  Speaking-Conforms [] p w t = t.conforms
  Speaking-Conforms (f ∷ []) p w t = t.conforms
  Speaking-Conforms (f ∷ g ∷ fs) p w t = absurd w

  pub fresh_process-Speaking : Speaking x [] fresh_process
  fresh_process-Speaking = record { conforms = tt; now = refl }

  -- However calls, reconnections, the background task, activations and everything that leaves the
  -- pipe alone interleave from the start of the server on, what is said to the plugin keeps to the
  -- protocol: a pipe is opened only when none is open, and no other than the open one is written
  -- to, read from or closed; the first line on it is a greeting with the nonce that the registry
  -- gave when it was last asked, and nothing but the newline that ends it is written before an
  -- answer was read that is a success.
  pub Moves-Conforms :
      (s : System V) → Moves x fresh_system s → Conforms x (transcript s.process.history)
  Moves-Conforms s run =
      let (w, k) = Moves-Speaking fresh_system s run fresh_process-IsOwned fresh_process-Speaking in
      Speaking-Conforms s.flights s.process w k
