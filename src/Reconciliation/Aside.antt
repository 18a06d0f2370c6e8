-- ===== src/Reconciliation/Aside.antt =====
-- What the background task does after its call of the plugin leaves the pipe alone.
use kee_pass_key_win.Prelude.{
  ℕ, ◌+◌, Bool, true, false, List, [], ◌∷◌, String, Text, if◌then◌else◌, Result, ok, err, arith,
  Bool-cases, Option-cases, inl, inr,
}
use kee_pass_key_win.World.{OutBuffer, Externals, Process}
use kee_pass_key_win.World.Aside.{IsAside, IsAside-refl, IsAside-trans}
use kee_pass_key_win.Ipc.ClientError.{ClientError}
use kee_pass_key_win.AddCredentials.{details_of, parse_add_credentials_fields, AddCredentialsFields}
use kee_pass_key_win.CredentialStore.{remove_credentials}
use kee_pass_key_win.CredentialStore.Aside.{
  add_credentials-IsAside, get_all_credentials-IsAside, remove_credentials-IsAside,
  free_credential_details_array-IsAside,
}
use kee_pass_key_win.Reconciliation.{
  add_parsed, translated, add_one, add_missing, remove_stale, free_array, finish, with_os_list,
  with_vault, vault_ids, has_array, os_ids,
}

module _ {V : Type 0} (x : Externals V) where
  add_parsed-IsAside :
      (r : Result String AddCredentialsFields) (p : Process) → IsAside p (add_parsed x r p).1
  unfolding add_parsed
  add_parsed-IsAside (err f) p = IsAside-refl p
  add_parsed-IsAside (ok f) p = ground (arith, add_credentials-IsAside x (details_of f) p)

  add_one-IsAside :
      (known : List (List ℕ)) (item : V) (p : Process) → IsAside p (add_one x known item p).1
  unfolding add_one
  add_one-IsAside known item p =
      let parsed = parse_add_credentials_fields x (translated x item) in
      ground (arith, add_parsed-IsAside parsed p, IsAside-refl p)

  add_missing-IsAside :
      (known : List (List ℕ)) (items : List V) (p : Process)
      → IsAside p (add_missing x known items p).1
  unfolding add_missing
  add_missing-IsAside known [] p = IsAside-refl p
  add_missing-IsAside known (item ∷ items) p =
      let (b, q) = add_one x known item p in
      let a = add_one-IsAside known item p in
      let rest = IsAside-trans a (add_missing-IsAside known items q) in
      elim (Bool-cases b) [ inl e ↦ rw (e, add_missing) a | inr e ↦ rw (e, add_missing) rest ]

  remove_stale-IsAside :
      (vault : List (List ℕ)) (arr i : ℕ) (ids : List (List ℕ)) (p : Process)
      → IsAside p (remove_stale x vault arr i ids p)
  unfolding remove_stale
  remove_stale-IsAside vault arr i [] p = IsAside-refl p
  remove_stale-IsAside vault arr i (id ∷ ids) p =
      let (r, q) = remove_credentials x arr i p in
      let a = remove_credentials-IsAside x arr i p in
      let rest = IsAside-trans a (remove_stale-IsAside vault arr (i + 1) ids q) in
      ground (arith, a, rest, remove_stale-IsAside vault arr (i + 1) ids p)

  free_array-IsAside : (os : OutBuffer) (p : Process) → IsAside p (free_array x os p)
  unfolding free_array
  free_array-IsAside os p =
      ground (arith, IsAside-refl p, free_credential_details_array-IsAside x os.cb os.ptr p)

  finish-IsAside :
      (os : OutBuffer) (vault : List V) (known : List (List ℕ)) (aborted : Bool) (p : Process)
      → IsAside p (finish x os vault known (aborted, p))
  unfolding finish
  finish-IsAside os vault known true p = free_array-IsAside os p
  finish-IsAside os vault known false p =
      let q = if has_array os then remove_stale x (vault_ids x vault) os.ptr 0 known p else p in
      let a : IsAside p q =
        ground (arith, remove_stale-IsAside (vault_ids x vault) os.ptr 0 known p, IsAside-refl p) in
      IsAside-trans a (free_array-IsAside os q)

  with_os_list-IsAside :
      (vault : List V) (r : Result Text OutBuffer) (p : Process)
      → IsAside p (with_os_list x vault (r, p))
  unfolding with_os_list
  with_os_list-IsAside vault (err e) p = IsAside-refl p
  with_os_list-IsAside vault (ok os) p =
      IsAside-trans (add_missing-IsAside (os_ids x os p) vault p) (finish-IsAside os vault _ _ _)

  pub with_vault-IsAside : (r : Result ClientError V) (p : Process) → IsAside p (with_vault x r p)
  unfolding with_vault
  with_vault-IsAside (err e) p = IsAside-refl p
  with_vault-IsAside (ok v) p = elim (Option-cases (x.as_array v)) [
    | inl e ↦ rw (e, with_vault) (IsAside-refl p)
    | inr (vault, e) ↦
        rw (e, with_vault)
          (IsAside-trans (get_all_credentials-IsAside x p) (with_os_list-IsAside vault _ _))
  ]
