-- ===== src/Reconciliation/Exactly.antt =====
-- What `reconcile_vault_with_os` of src/KeePassKeyWin.Provider/src/com/exe_server.rs makes of the system's
-- list, in terms of what the system's records and the vault's items hold.
use kee_pass_key_win.Prelude.{
  ℕ, ◌<◌, true, false, some, List, [], ok, ◌≡◌, ◌≢◌, ◌∙◌, ap, sym, subst, arith, is_empty,
}
use kee_pass_key_win.World.{
  CredentialBindings, CredentialDetails, Externals, OutBuffer, Process, details_freed, emit,
}
use kee_pass_key_win.Reconciliation.{contains, has_array, vault_ids, with_os_list}
use kee_pass_key_win.Reconciliation.Differences.{
  Resolved, added, missing, removed, stale_indexes, with_os_list-differences,
}
use kee_pass_key_win.Reconciliation.Entries.{
  entries, ids_added, positions_removed, with_os_list-contains,
}
use kee_pass_key_win.Reconciliation.Convergence.{AllReadable}
use kee_pass_key_win.Reconciliation.Sources.{
  AllDescribed, AreListed, identifiers, is_among, to_add, to_remove, AllDescribed-AllReadable,
  AreListed-os_ids, contains-is_among, missing-to_add, stale_indexes-to_remove,
  vault_ids-identifiers,
}

module _ {V : Type 0} (x : Externals V) (b : CredentialBindings) (f g : ℕ) (vault : List V)
    (os : OutBuffer) (p : Process) (resolved : Resolved b p)
    (removes : b.remove_credentials ≡ some f) (frees : b.free_credential_details_array ≡ some g)
    (filled : 0 < os.cb) (there : os.ptr ≢ 0) where
  array : has_array os ≡ true
  array = ground (arith, filled, there)

  -- With all entrypoints resolved and a list of the system's credentials that is neither null nor
  -- empty, `known` being the identifiers in its records: reconciliation adds, in the vault's order, the
  -- credential of each item whose identifier decodes and is not known and whose fields are all there;
  -- it then removes, in the list's order, each record whose identifier is not empty and not one of the
  -- vault's; it then frees the list. It makes no other call.
  pub with_os_list-exactly :
      (known : List (List ℕ))
      → AreListed x os p known
      → with_os_list x vault (ok os, p)
        ≡ emit (details_freed os.cb os.ptr) (
            removed os.ptr
              (to_remove (identifiers x vault) 0 known)
              (added (to_add x known vault) p))
  with_os_list-exactly known listed =
      let same = AreListed-os_ids x os p known array listed in
      let calls = with_os_list-differences x b f g vault os p resolved removes frees array in
      let all : List CredentialDetails → List ℕ → Process =
        λ ds is. emit (details_freed os.cb os.ptr) (removed os.ptr is (added ds p)) in
      let from : with_os_list x vault (ok os, p)
          ≡ all (missing x known vault) (stale_indexes (vault_ids x vault) 0 known) =
        subst
          (λ (ids : List (List ℕ)).
            with_os_list x vault (ok os, p)
            ≡ all (missing x ids vault) (stale_indexes (vault_ids x vault) 0 ids))
          (sym same) calls in
      from
      ∙ ap (λ ds. all ds (stale_indexes (vault_ids x vault) 0 known)) (missing-to_add x known vault)
      ∙ ap (λ is. all (to_add x known vault) is)
          (stale_indexes-to_remove (vault_ids x vault) 0 known
            ∙ ap (λ ids. to_remove ids 0 known) (vault_ids-identifiers x vault))

  -- With all entrypoints resolved and a list of the system's credentials that is neither null nor
  -- empty, `known` being the identifiers in its records, and if each item of the vault that the
  -- system does not know describes a credential: taking each addition as putting its credential in and
  -- each removal as taking the record at its position out, the system's list holds exactly the
  -- identifiers of the vault after a reconciliation, empty ones aside, in a process that added and
  -- removed nothing before.
  pub with_os_list-synced :
      (known : List (List ℕ))
      → AreListed x os p known
      → ids_added p.history ≡ []
      → positions_removed p.history ≡ []
      → AllDescribed x known vault
      → (id : List ℕ) → is_empty id ≡ false
      → is_among (entries known (with_os_list x vault (ok os, p)).history) id
        ≡ is_among (identifiers x vault) id
  with_os_list-synced known listed none_added none_removed described id present =
      let same = AreListed-os_ids x os p known array listed in
      let readable = AllDescribed-AllReadable x known vault described in
      let h = (with_os_list x vault (ok os, p)).history in
      let synced : contains (entries known h) id ≡ contains (vault_ids x vault) id =
        subst
          (λ (ids : List (List ℕ)). contains (entries ids h) id ≡ contains (vault_ids x vault) id)
          (sym same)
          (with_os_list-contains x b f g vault os p id resolved removes frees array none_added
            none_removed (subst (λ ids. AllReadable x ids vault) same readable) present) in
      sym (contains-is_among (entries known h) id)
      ∙ synced
      ∙ contains-is_among (vault_ids x vault) id
      ∙ ap (λ ids. is_among ids id) (vault_ids-identifiers x vault)
