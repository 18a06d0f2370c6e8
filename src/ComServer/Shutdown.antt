-- ===== src/ComServer/Shutdown.antt =====
-- The server's own references to its class factory are all given back, and COM is left once.
use kee_pass_key_win.Prelude.{
  ℕ, suc, zero, ◌+◌, ◌-◌, ◌%◌, ◌^◌, ◌<◌, ◌∙◌, some, ◌||◌, Bool, true, false, none, List, [], ◌∷◌,
  String, Result, ok, err, ◌≡◌, arith, pos, minus, eq_ℤ, Bool-cases, inl, inr,
}
use kee_pass_key_win.World.{Process, History, emit, com_initialized}
use kee_pass_key_win.World.Aside.{IsTidy}
use kee_pass_key_win.World.Counts.{com_entered, uninitialized, revoked}
use kee_pass_key_win.ComObject.{ClassFactory, cf_add_ref, cf_release, new_factory}
use kee_pass_key_win.ComServer.{
  Message, Served, ServerExternals, Serving, exits, panicked, conclude_pump, pump, run_com_server,
  serve, shutdown, start_server, waits, take_references, give_back_references, drop_reference,
  get_session_id,
}

-- Windows gives back the references to the factory that it takes while a message is dispatched.
abbrev pub AllTidy : List Message → Type 0
AllTidy [] = Unit
AllTidy (m ∷ ms) =
    ((f : ClassFactory) (p : Process) → ((m.dispatch f p).0 ≡ f) × IsTidy p (m.dispatch f p).1)
    × AllTidy ms

pump-IsTidy :
    (ms : List Message) (f : ClassFactory) (p : Process)
    → AllTidy ms
    → let (quit, g, q) = pump ms f p in (g ≡ f) × IsTidy p q
unfolding pump
pump-IsTidy [] f p h = ground arith
pump-IsTidy (m ∷ ms) f p h =
    let (g, q) = m.dispatch f p in
    elim (Bool-cases (eq_ℤ m.result (pos 0) || eq_ℤ m.result (minus 1))) [
      | inl e ↦ rw e (ground arith)
      | inr e ↦ rw e (ground (arith, h.0 f p, pump-IsTidy ms g q h.1))
    ]

take_references-count :
    (n : ℕ) (f : ClassFactory)
    → f.ref_count + n < 2 ^ 32
    → (take_references n f).ref_count ≡ f.ref_count + n
unfolding take_references cf_add_ref
take_references-count zero f h = omega arith
take_references-count (suc n) f h =
    let e : (f.ref_count + 1) % 2 ^ 32 ≡ f.ref_count + 1 = omega arith in
    let k = take_references-count n (record f { ref_count = (f.ref_count + 1) % 2 ^ 32 }) in
    k (omega arith) ∙ omega arith

give_back_references-last :
    (n : ℕ) (f : ClassFactory)
    → f.ref_count ≡ n + 1
    → n + 1 < 2 ^ 32
    → drop_reference (give_back_references n (some f)) ≡ none
unfolding give_back_references cf_release
give_back_references-last zero f e h = ground (arith, e)
give_back_references-last (suc n) f e h =
    let g : ClassFactory = record f { ref_count = (f.ref_count + (2 ^ 32 - 1)) % 2 ^ 32 } in
    let k = give_back_references-last n g (omega arith) (omega arith) in
    let r : (cf_release f).1 ≡ some g = ground (arith, e) in rw r k

module _ {V : Type 0} (x : ServerExternals V) where
  -- The references to the factory that the registration takes in a server started from `p`.
  abbrev pub registration_refs : Process → ℕ
  registration_refs p = x.register_refs (emit com_initialized p).history

  -- How a server that was started from `p` ends.
  abbrev pub Ended : Process → Served × Process → Type 0
  Ended p (panicked e, q) =
      (uninitialized q.history ≡ uninitialized p.history) × (revoked q.history ≡ revoked p.history)
  Ended p (waits f, q) =
      (f.ref_count ≡ 1 + registration_refs p)
      × (com_entered q.history ≡ com_entered p.history + 1)
      × (uninitialized q.history ≡ uninitialized p.history)
      × (revoked q.history ≡ revoked p.history)
  Ended p (exits left, q) =
      (left ≡ none)
      × (com_entered q.history ≡ com_entered p.history + 1)
      × (uninitialized q.history ≡ uninitialized p.history + 1)
      × (revoked q.history ≡ revoked p.history + 1)

  abbrev pub Started : Process → Result String Serving × Process → Type 0
  Started p (err e, q) =
      (uninitialized q.history ≡ uninitialized p.history) × (revoked q.history ≡ revoked p.history)
  Started p (ok s, q) =
      (s.factory.ref_count ≡ 1 + registration_refs p)
      × (com_entered q.history ≡ com_entered p.history + 1)
      × (uninitialized q.history ≡ uninitialized p.history)
      × (revoked q.history ≡ revoked p.history)

  -- The registration takes no more references than a counter holds, and a revocation gives back as
  -- many as the registration took.
  abbrev pub GivenBack : Process → Type 0
  GivenBack p =
      (1 + registration_refs p < 2 ^ 32)
      × ((cookie : ℕ) (h : History) → x.revoke_refs cookie h ≡ registration_refs p)

  module _ (p : Process) (back : GivenBack p) where
    pub start_server-Started : Started p (start_server x p)
    unfolding start_server new_factory
    start_server-Started =
        let f : ClassFactory = new_factory (get_session_id x.session) in
        ground (arith, take_references-count (registration_refs p) f back.0)

    pub conclude_pump-Ended :
        (cookie : ℕ) (quit : Bool) (f : ClassFactory) (q : Process)
        → Started p (ok (record { factory = f; cookie = cookie }), q)
        → Ended p (conclude_pump x cookie (quit, f, q))
    unfolding conclude_pump shutdown
    conclude_pump-Ended cookie false f q h = ground arith
    conclude_pump-Ended cookie true f q h =
        let freed = give_back_references-last (registration_refs p) f (omega (arith, h.0)) in
        (
          rw (back.1 cookie q.history) (freed (omega (arith, back.0))),
          ground arith,
          ground arith,
          ground arith,
        )

    serve-Ended :
        (messages : List Message) (r : Result String Serving × Process)
        → AllTidy messages
        → Started p r
        → Ended p (serve x messages r)
    unfolding serve
    serve-Ended messages (err e, q) h k = k
    serve-Ended messages (ok s, q) h k =
        let (quit, g, t) = pump messages s.factory q in
        let (same, tidy) = pump-IsTidy messages s.factory q h in
        conclude_pump-Ended s.cookie quit g t (ground (arith, k, same, tidy))

    -- If Windows gives back the references to the factory that it takes while a message is dispatched,
    -- and the revocation of the class those that its registration took: the server exits with its
    -- class revoked by one call, its factory freed and COM left once; as long as it waits the factory counts
    -- the references of the server and of the registration; and if it does not come as far as the
    -- loop, it panics with nothing revoked and COM not left.
    pub run_com_server-Ended :
        (messages : List Message) → AllTidy messages → Ended p (run_com_server x messages p)
    unfolding run_com_server
    run_com_server-Ended messages h = serve-Ended messages (start_server x p) h start_server-Started
