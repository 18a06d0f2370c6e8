-- ===== src/Reconciliation/Entries.antt =====
-- The system's list of credentials after `reconcile_vault_with_os` of
-- src/KeePassKeyWin.Provider/src/com/exe_server.rs, read off the calls that were made.
use kee_pass_key_win.Prelude.{
  ℕ, ◌+◌, true, false, ◌||◌, some, List, [], ◌∷◌, ◌++◌, ok, ◌≡◌, ◌∙◌, refl, ap, arith, is_empty,
}
use kee_pass_key_win.World.{
  CredentialBindings, CredentialDetails, Externals, History, OutBuffer, Process, credential_removed,
  credentials_added, emit,
}
use kee_pass_key_win.Reconciliation.{contains, has_array, os_ids, vault_ids, with_os_list}
use kee_pass_key_win.Reconciliation.Convergence.{
  AllReadable, among, contains-append, entries_after-contains, new_ids, spared,
}
use kee_pass_key_win.Reconciliation.Differences.{
  Resolved, added, missing, removed, stale_indexes, with_os_list-differences,
}

-- The identifiers that were added, and the positions of the entries that were removed.
abbrev pub ids_added : History → List (List ℕ)
ids_added [] = []
ids_added (credentials_added d ∷ h) = d.credential_id ∷ ids_added h
ids_added (_ ∷ h) = ids_added h

abbrev pub positions_removed : History → List ℕ
positions_removed [] = []
positions_removed (credential_removed arr i ∷ h) = i ∷ positions_removed h
positions_removed (_ ∷ h) = positions_removed h

-- The entries after the calls: what was added, and what was there and not removed.
abbrev pub entries : List (List ℕ) → History → List (List ℕ)
entries known h = ids_added h ++ spared (positions_removed h) 0 known

spared-same :
    (is js : List ℕ) (i : ℕ) (ids : List (List ℕ))
    → ((j : ℕ) → among j is ≡ among j js)
    → spared is i ids ≡ spared js i ids
spared-same is js i [] h = refl
spared-same is js i (id ∷ ids) h = ground (arith, h i, spared-same is js (i + 1) ids h)

contains-added :
    (ds : List CredentialDetails) (p : Process) (id : List ℕ)
    → contains (ids_added (added ds p).history) id
      ≡ (contains (new_ids ds) id || contains (ids_added p.history) id)
unfolding contains
contains-added [] p id = refl
contains-added (d ∷ ds) p id = ground (arith, contains-added ds (emit (credentials_added d) p) id)

positions_removed-added :
    (ds : List CredentialDetails) (p : Process)
    → positions_removed (added ds p).history ≡ positions_removed p.history
positions_removed-added [] p = refl
positions_removed-added (d ∷ ds) p = positions_removed-added ds (emit (credentials_added d) p)

among-removed :
    (arr : ℕ) (is : List ℕ) (p : Process) (j : ℕ)
    → among j (positions_removed (removed arr is p).history)
      ≡ (among j is || among j (positions_removed p.history))
among-removed arr [] p j = refl
among-removed arr (i ∷ is) p j =
    ground (arith, among-removed arr is (emit (credential_removed arr i) p) j)

ids_added-removed :
    (arr : ℕ) (is : List ℕ) (p : Process)
    → ids_added (removed arr is p).history ≡ ids_added p.history
ids_added-removed arr [] p = refl
ids_added-removed arr (i ∷ is) p = ids_added-removed arr is (emit (credential_removed arr i) p)

module _ {V : Type 0} (x : Externals V) (b : CredentialBindings) where
  -- After the calls that reconciliation makes.
  entries-differences :
      (known : List (List ℕ)) (ds : List CredentialDetails) (arr : ℕ) (is : List ℕ) (p : Process)
      (id : List ℕ)
      → ids_added p.history ≡ []
      → positions_removed p.history ≡ []
      → contains (entries known (removed arr is (added ds p)).history) id
        ≡ contains (new_ids ds ++ spared is 0 known) id
  unfolding contains
  entries-differences known ds arr is p id none_added none_removed =
      let a = added ds p in
      let q = removed arr is a in
      let positions : (j : ℕ) → among j (positions_removed q.history) ≡ among j is = λ j. ground (
        arith,
        among-removed arr is a j,
        ap (among j) (positions_removed-added ds p ∙ none_removed),
      ) in
      let ids : contains (ids_added q.history) id ≡ contains (new_ids ds) id = ground (
        arith,
        ap (λ ids. contains ids id) (ids_added-removed arr is a),
        contains-added ds p id,
        ap (λ ids. contains ids id) none_added,
      ) in
      ground (
        arith,
        contains-append (ids_added q.history) (spared (positions_removed q.history) 0 known) id,
        contains-append (new_ids ds) (spared is 0 known) id,
        ids,
        ap (λ ids. contains ids id)
            (spared-same (positions_removed q.history) is 0 known positions),
      )

  -- With all entrypoints resolved, and if each item of the vault that the system does not know can be
  -- read: taking each addition as putting its credential in and each removal as taking the entry of
  -- its position out, the system's list holds exactly the identifiers of the vault after a
  -- reconciliation, empty ones aside, in a process that added and removed nothing before.
  pub with_os_list-contains :
      (f g : ℕ) (vault : List V) (os : OutBuffer) (p : Process) (id : List ℕ)
      → Resolved b p
      → b.remove_credentials ≡ some f
      → b.free_credential_details_array ≡ some g
      → has_array os ≡ true
      → ids_added p.history ≡ []
      → positions_removed p.history ≡ []
      → AllReadable x (os_ids x os p) vault
      → is_empty id ≡ false
      → contains (entries (os_ids x os p) (with_os_list x vault (ok os, p)).history) id
        ≡ contains (vault_ids x vault) id
  with_os_list-contains f g vault os p id h ef eg array none_added none_removed readable filled =
      let known = os_ids x os p in
      let is = stale_indexes (vault_ids x vault) 0 known in
      ap (λ (q : Process). contains (entries known q.history) id)
        (with_os_list-differences x b f g vault os p h ef eg array)
      ∙ entries-differences known (missing x known vault) os.ptr is p id none_added none_removed
      ∙ entries_after-contains x known vault id readable filled
