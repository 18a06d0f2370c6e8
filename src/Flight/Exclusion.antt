-- ===== src/Flight/Exclusion.antt =====
-- However the threads interleave, one call of the plugin is in flight at most, and one pipe is open.
use kee_pass_key_win.Prelude.{
  ℕ, ◌≤◌, none, some, List, [], ◌∷◌, String, ◌≡◌, ◌≢◌, ap, subst, arith, get_elem?, Option-cases,
  inl, inr, length,
}
use kee_pass_key_win.World.{Guid, Externals, PipeClient, Process, pipe_of, fresh_process}
use kee_pass_key_win.World.Counts.{OnePipe}
use kee_pass_key_win.Retry.{take_call_with_retry}
use kee_pass_key_win.Retry.Ownership.{fresh_process-IsOwned}
use kee_pass_key_win.Hresult.{s_ok}
use kee_pass_key_win.Authenticator.{cancel_operation}
use kee_pass_key_win.Flight.{Flight, System, Moves}
use kee_pass_key_win.Flight.Exclusive.{Exclusive, Moves-Exclusive}

-- The server when it starts.
abbrev pub fresh_system : {V : Type 0} → System V
fresh_system = record { process = fresh_process; flights = [] }

Exclusive-length :
    {V : Type 0} (fs : List (Flight V)) (p : Process) → Exclusive fs p → length fs ≤ 1
Exclusive-length [] p w = omega arith
Exclusive-length (f ∷ []) p w = omega arith
Exclusive-length (f ∷ g ∷ fs) p w = absurd w

pub Exclusive-OnePipe :
    {V : Type 0} (fs : List (Flight V)) (p : Process) → Exclusive fs p → OnePipe p.history
Exclusive-OnePipe [] p w = w.one
Exclusive-OnePipe (f ∷ []) p t = t.one
Exclusive-OnePipe (f ∷ g ∷ fs) p w = absurd w

Exclusive-empty :
    {V : Type 0} (f : Flight V) (fs : List (Flight V)) (p : Process)
    → Exclusive (f ∷ fs) p
    → (arc : ℕ) (c : PipeClient) → pipe_of (get_elem? p.arcs arc) ≢ some c
Exclusive-empty f [] p t arc c = t.empty arc c
Exclusive-empty f (g ∷ fs) p t arc c = absurd t

module _ {V : Type 0} (x : Externals V) (s : System V) (run : Moves x fresh_system s) where
  exclusive : Exclusive s.flights s.process
  exclusive = Moves-Exclusive x fresh_system s run fresh_process-IsOwned

  -- However calls, reconnections, the background task, activations and all that does not touch the
  -- pipe interleave from the start of the server on, one call of the plugin is in flight at most,
  -- and at no time were two pipes open.
  pub Moves-exclusion : (length s.flights ≤ 1) × OnePipe s.process.history
  Moves-exclusion = (
    Exclusive-length s.flights s.process exclusive,
    Exclusive-OnePipe s.flights s.process exclusive,
  )

  empty_handed :
      (f : Flight V) (fs : List (Flight V))
      → s.flights ≡ f ∷ fs
      → (arc : ℕ) (method : String) (params : V)
      → take_call_with_retry x method params arc s.process ≡ (none, s.process)
  unfolding take_call_with_retry
  empty_handed f fs e arc method params =
      let w = subst (λ fs. Exclusive fs s.process) e exclusive in
      elim (Option-cases (pipe_of (get_elem? s.process.arcs arc))) [
        | inl gone ↦ rw (gone, take_call_with_retry)
        | inr (c, h) ↦ absurd (Exclusive-empty f fs s.process w arc c h)
      ]

  -- While a call is in flight no state holds a pipe: every other call finds none, gives up and changes
  -- nothing; a cancellation too, which answers S_OK and sends nothing to the plugin.
  pub Moves-busy :
      (f : Flight V) (fs : List (Flight V))
      → s.flights ≡ f ∷ fs
      → (arc : ℕ)
      → ((method : String) (params : V)
          → take_call_with_retry x method params arc s.process ≡ (none, s.process))
        × ((transaction_id : Guid)
            → cancel_operation x arc transaction_id s.process ≡ (s_ok, s.process))
  unfolding cancel_operation
  Moves-busy f fs e arc = (
    empty_handed f fs e arc,
    λ transaction_id. ap (λ r. (s_ok, r.1)) (empty_handed f fs e arc _ _),
  )
