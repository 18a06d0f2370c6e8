-- ===== src/Reconciliation/Differences.antt =====
-- What reconciliation asks of the system: exactly the differences between its list and the vault.
use kee_pass_key_win.Prelude.{
  ℕ, ◌+◌, Bool, true, false, Option, none, some, List, [], ◌∷◌, String, Result, ok, err, ◌≡◌, ◌∙◌,
  ap, refl, arith, is_empty, ◌&&◌, not, if◌then◌else◌,
}
use kee_pass_key_win.World.{
  CredentialDetails, CredentialBindings, OutBuffer, Externals, Process, credentials_added,
  credential_removed, details_freed, emit,
}
use kee_pass_key_win.AddCredentials.{AddCredentialsFields, details_of, parse_add_credentials_fields}
use kee_pass_key_win.CredentialStore.{
  add_credentials, remove_credentials, free_credential_details_array,
}
use kee_pass_key_win.Reconciliation.{
  contains, has_array, item_id, os_ids, translated, add_parsed, add_one, add_missing, vault_ids,
  remove_stale, free_array, finish, with_os_list,
}

-- The processes in which the entrypoints for credentials are resolved.
abbrev pub Resolved : CredentialBindings → Process → Type 0
Resolved b p = p.credential_bindings ≡ some (ok b)

abbrev details_or_none : Result String AddCredentialsFields → Option CredentialDetails
details_or_none (ok f) = some (details_of f)
details_or_none (err e) = none

abbrev pub onto : Option CredentialDetails → List CredentialDetails → List CredentialDetails
onto none ds = ds
onto (some d) ds = d ∷ ds

-- Calls of the system's database, one for each element.
abbrev pub added : List CredentialDetails → Process → Process
added [] p = p
added (d ∷ ds) p = added ds (emit (credentials_added d) p)

abbrev pub removed : ℕ → List ℕ → Process → Process
removed arr [] p = p
removed arr (i ∷ is) p = removed arr is (emit (credential_removed arr i) p)

-- The positions, from `i` on, of the identifiers that are there and not in the vault.
abbrev pub stale_indexes : List (List ℕ) → ℕ → List (List ℕ) → List ℕ
stale_indexes vault i [] = []
stale_indexes vault i (id ∷ ids) =
    let rest = stale_indexes vault (i + 1) ids in
    if not (is_empty id) && not (contains vault id) then i ∷ rest else rest

module _ {V : Type 0} (x : Externals V) where
  -- The credential to add for an item: its identifier is not known and its fields can be read.
  abbrev pub wanted : List (List ℕ) → V → Option CredentialDetails
  wanted known item = elim (item_id x item) [
    | none ↦ none
    | some id ↦
        if contains known id
        then none
        else details_or_none (parse_add_credentials_fields x (translated x item))
  ]

  abbrev pub missing : List (List ℕ) → List V → List CredentialDetails
  missing known [] = []
  missing known (item ∷ items) = onto (wanted known item) (missing known items)

  module _ (b : CredentialBindings) where
    abbrev add_option : Option CredentialDetails → Process → Process
    add_option none p = p
    add_option (some d) p = emit (credentials_added d) p

    add_parsed-details :
        (r : Result String AddCredentialsFields) (p : Process)
        → Resolved b p
        → add_parsed x r p ≡ (false, add_option (details_or_none r) p)
    unfolding add_parsed add_credentials
    add_parsed-details (err e) p h = refl
    add_parsed-details (ok f) p h = ground (arith, h)

    add_one-wanted :
        (known : List (List ℕ)) (item : V) (p : Process)
        → Resolved b p
        → add_one x known item p ≡ (false, add_option (wanted known item) p)
    unfolding add_one
    add_one-wanted known item p h =
        let parsed = parse_add_credentials_fields x (translated x item) in
        ground (arith, add_parsed-details parsed p h)

    added-onto :
        (o : Option CredentialDetails) (ds : List CredentialDetails) (p : Process)
        → added ds (add_option o p) ≡ added (onto o ds) p
    added-onto none ds p = refl
    added-onto (some d) ds p = refl

    add_option-Resolved :
        (o : Option CredentialDetails) (p : Process) → Resolved b p → Resolved b (add_option o p)
    add_option-Resolved none p h = h
    add_option-Resolved (some d) p h = h

    add_missing-missing :
        (known : List (List ℕ)) (items : List V) (p : Process)
        → Resolved b p
        → add_missing x known items p ≡ (false, added (missing known items) p)
    unfolding add_missing
    add_missing-missing known [] p h = refl
    add_missing-missing known (item ∷ items) p h =
        let o = wanted known item in
        let q = add_option o p in
        let after : Bool × Process → Bool × Process =
          λ r. elim r.0 [ true ↦ (true, r.1) | false ↦ add_missing x known items r.1 ] in
        ap after (add_one-wanted known item p h)
        ∙ add_missing-missing known items q (add_option-Resolved o p h)
        ∙ ap (λ (q : Process). (false, q)) (added-onto o (missing known items) p)

    added-Resolved :
        (ds : List CredentialDetails) (p : Process) → Resolved b p → Resolved b (added ds p)
    added-Resolved [] p h = h
    added-Resolved (d ∷ ds) p h = added-Resolved ds (emit (credentials_added d) p) h

    removed-Resolved :
        (arr : ℕ) (is : List ℕ) (p : Process) → Resolved b p → Resolved b (removed arr is p)
    removed-Resolved arr [] p h = h
    removed-Resolved arr (i ∷ is) p h =
        removed-Resolved arr is (emit (credential_removed arr i) p) h

    remove_credentials-call :
        (f arr i : ℕ) (p : Process)
        → Resolved b p
        → b.remove_credentials ≡ some f
        → remove_credentials x arr i p
          ≡ (ok (x.call_remove_credentials p.history f arr i), emit (credential_removed arr i) p)
    unfolding remove_credentials
    remove_credentials-call f arr i p h e = ground arith

    remove_stale-stale :
        (f : ℕ) (vault : List (List ℕ)) (arr i : ℕ) (ids : List (List ℕ)) (p : Process)
        → Resolved b p
        → b.remove_credentials ≡ some f
        → remove_stale x vault arr i ids p ≡ removed arr (stale_indexes vault i ids) p
    unfolding remove_stale
    remove_stale-stale f vault arr i [] p h e = refl
    remove_stale-stale f vault arr i (id ∷ ids) p h e =
        let call = remove_credentials-call f arr i p h e in
        let q = emit (credential_removed arr i) p in
        ground (
          arith,
          call,
          remove_stale-stale f vault arr (i + 1) ids p h e,
          remove_stale-stale f vault arr (i + 1) ids q h e,
        )

    free_array-call :
        (g : ℕ) (os : OutBuffer) (p : Process)
        → Resolved b p
        → b.free_credential_details_array ≡ some g
        → has_array os ≡ true
        → free_array x os p ≡ emit (details_freed os.cb os.ptr) p
    unfolding free_array free_credential_details_array
    free_array-call g os p h e a = ground arith

    -- With all entrypoints resolved and a list of the system's credentials at hand, reconciliation
    -- adds, in the vault's order, each credential whose identifier decodes, is not in the list and
    -- whose fields can be read; it then removes each credential of the list whose identifier is not
    -- empty and not in the vault; it then frees the list. It makes no other call.
    pub with_os_list-differences :
        (f g : ℕ) (vault : List V) (os : OutBuffer) (p : Process)
        → Resolved b p
        → b.remove_credentials ≡ some f
        → b.free_credential_details_array ≡ some g
        → has_array os ≡ true
        → let known = os_ids x os p in
          with_os_list x vault (ok os, p)
          ≡ emit (details_freed os.cb os.ptr) (
              removed os.ptr
                (stale_indexes (vault_ids x vault) 0 known)
                (added (missing known vault) p))
    unfolding with_os_list finish
    with_os_list-differences f g vault os p h ef eg a =
        let known = os_ids x os p in
        let is = stale_indexes (vault_ids x vault) 0 known in
        let q = added (missing known vault) p in
        let hq = added-Resolved (missing known vault) p h in
        let t = removed os.ptr is q in
        ap (finish x os vault known) (add_missing-missing known vault p h)
        ∙ ap
            (λ (c : Bool).
              free_array x os
                (if c then remove_stale x (vault_ids x vault) os.ptr 0 known q else q))
            a
        ∙ ap (free_array x os) (remove_stale-stale f (vault_ids x vault) os.ptr 0 known q hq ef)
        ∙ free_array-call g os t (removed-Resolved os.ptr is q hq) eg a
