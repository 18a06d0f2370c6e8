-- ===== src/Reconciliation/Release.antt =====
-- The system's list of credentials is freed on every path.
use kee_pass_key_win.Prelude.{
  ℕ, ◌+◌, Bool, true, false, some, List, [], ◌∷◌, String, Result, ok, err, ◌≡◌, ◌∙◌, arith,
  count_if, if◌then◌else◌, refl, Bool-cases, inl, inr,
}
use kee_pass_key_win.World.{
  CredentialBindings, OutBuffer, Externals, Process, Event, History, details_freed,
}
use kee_pass_key_win.AddCredentials.{AddCredentialsFields, parse_add_credentials_fields}
use kee_pass_key_win.CredentialStore.{add_credentials, remove_credentials}
use kee_pass_key_win.Reconciliation.{
  has_array, os_ids, translated, add_parsed, add_one, add_missing, vault_ids, remove_stale,
  free_array, finish, with_os_list,
}

abbrev is_list_freed : Event → Bool
is_list_freed (details_freed n a) = true
is_list_freed _ = false

-- How many lists of credentials were freed.
abbrev pub lists_freed : History → ℕ
lists_freed = count_if is_list_freed

-- No list was freed, and the entrypoints are still resolved.
record IsHeld (b : CredentialBindings) (p q : Process) : Type 0 where
  freed : lists_freed q.history ≡ lists_freed p.history
  resolved : q.credential_bindings ≡ some (ok b)

IsHeld-trans :
    {b : CredentialBindings} {p q r : Process} → IsHeld b p q → IsHeld b q r → IsHeld b p r
IsHeld-trans h k = record { freed = k.freed ∙ h.freed; resolved = k.resolved }

module _ {V : Type 0} (x : Externals V) (b : CredentialBindings) where
  add_parsed-IsHeld :
      (r : Result String AddCredentialsFields) (p : Process)
      → p.credential_bindings ≡ some (ok b)
      → IsHeld b p (add_parsed x r p).1
  unfolding add_parsed add_credentials
  add_parsed-IsHeld (err e) p h = record { freed = refl; resolved = h }
  add_parsed-IsHeld (ok f) p h = ground arith

  add_one-IsHeld :
      (known : List (List ℕ)) (item : V) (p : Process)
      → p.credential_bindings ≡ some (ok b)
      → IsHeld b p (add_one x known item p).1
  unfolding add_one
  add_one-IsHeld known item p h =
      ground (arith, add_parsed-IsHeld (parse_add_credentials_fields x (translated x item)) p h)

  add_missing-IsHeld :
      (known : List (List ℕ)) (items : List V) (p : Process)
      → p.credential_bindings ≡ some (ok b)
      → IsHeld b p (add_missing x known items p).1
  unfolding add_missing
  add_missing-IsHeld known [] p h = record { freed = refl; resolved = h }
  add_missing-IsHeld known (item ∷ items) p h =
      let (aborted, q) = add_one x known item p in
      let k = add_one-IsHeld known item p h in
      let rest = IsHeld-trans k (add_missing-IsHeld known items q k.resolved) in
      elim (Bool-cases aborted) [ inl e ↦ rw (e, add_missing) k | inr e ↦ rw (e, add_missing) rest ]

  remove_credentials-IsHeld :
      (arr i : ℕ) (p : Process)
      → p.credential_bindings ≡ some (ok b)
      → IsHeld b p (remove_credentials x arr i p).1
  unfolding remove_credentials
  remove_credentials-IsHeld arr i p h = ground arith

  remove_stale-IsHeld :
      (vault : List (List ℕ)) (arr i : ℕ) (ids : List (List ℕ)) (p : Process)
      → p.credential_bindings ≡ some (ok b)
      → IsHeld b p (remove_stale x vault arr i ids p)
  unfolding remove_stale
  remove_stale-IsHeld vault arr i [] p h = record { freed = refl; resolved = h }
  remove_stale-IsHeld vault arr i (id ∷ ids) p h =
      let (r, q) = remove_credentials x arr i p in
      let k = remove_credentials-IsHeld arr i p h in
      let rest = IsHeld-trans k (remove_stale-IsHeld vault arr (i + 1) ids q k.resolved) in
      ground (arith, k, rest, remove_stale-IsHeld vault arr (i + 1) ids p h)

  free_array-once :
      (g : ℕ) (os : OutBuffer) (p : Process)
      → p.credential_bindings ≡ some (ok b)
      → b.free_credential_details_array ≡ some g
      → lists_freed (free_array x os p).history
        ≡ lists_freed p.history + (if has_array os then 1 else 0)
  unfolding free_array
  free_array-once g os p h e = ground arith

  finish-once :
      (g : ℕ) (vault : List V) (os : OutBuffer) (known : List (List ℕ)) (aborted : Bool)
      (p : Process)
      → p.credential_bindings ≡ some (ok b)
      → b.free_credential_details_array ≡ some g
      → lists_freed (finish x os vault known (aborted, p)).history
        ≡ lists_freed p.history + (if has_array os then 1 else 0)
  unfolding finish
  finish-once g vault os known true p h e = free_array-once g os p h e
  finish-once g vault os known false p h e =
      let q = if has_array os then remove_stale x (vault_ids x vault) os.ptr 0 known p else p in
      let k : IsHeld b p q =
        ground (arith, remove_stale-IsHeld (vault_ids x vault) os.ptr 0 known p h) in
      omega (arith, free_array-once g os q k.resolved e, k.freed)

  -- Where the entrypoint that frees lists is there, the list that the system gave is freed exactly
  -- once, and none is where it gave none: also when the entrypoint that removes is missing.
  pub with_os_list-once :
      (g : ℕ) (vault : List V) (os : OutBuffer) (p : Process)
      → p.credential_bindings ≡ some (ok b)
      → b.free_credential_details_array ≡ some g
      → lists_freed (with_os_list x vault (ok os, p)).history
        ≡ lists_freed p.history + (if has_array os then 1 else 0)
  unfolding with_os_list
  with_os_list-once g vault os p h e =
      let known = os_ids x os p in
      let (aborted, q) = add_missing x known vault p in
      let k = add_missing-IsHeld known vault p h in
      omega (arith, finish-once g vault os known aborted q k.resolved e, k.freed)
