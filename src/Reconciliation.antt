-- ===== src/Reconciliation.antt =====
-- `reconcile_vault_with_os` of src/KeePassKeyWin.Provider/src/com/exe_server.rs: the background task
-- that brings the system's list of credentials in line with the vault. Its log lines, and the
-- counters that only they show, are left out.
pub mod Differences
pub mod Convergence
pub mod Entries
pub mod Release
pub mod Aside
pub mod Sources
pub mod Exactly
use kee_pass_key_win.Prelude.{
  ℕ, zero, suc, ◌+◌, Bool, true, false, ◌&&◌, ◌||◌, not, Option, none, some, List, [], ◌∷◌, String,
  Text, Result, ok, err, get_elem?, is_empty, eq_text, ltb, ◌==◌, if◌then◌else◌,
}
use kee_pass_key_win.World.{OutBuffer, Externals, PipeClient, Process, pipe_of, set_pipe}
use kee_pass_key_win.Ipc.ClientError.{ClientError}
use kee_pass_key_win.Ipc.Client.{Session, call_value}
use kee_pass_key_win.AddCredentials.{AddCredentialsFields, details_of, parse_add_credentials_fields}
use kee_pass_key_win.CredentialStore.{
  add_credentials, get_all_credentials, remove_credentials, free_credential_details_array,
}

-- `ids.contains(&id)`
unfoldable pub contains : List (List ℕ) → List ℕ → Bool
contains [] id = false
contains (i ∷ is) id = eq_text i id || contains is id

-- Whether there is an array: `os_count > 0 && !os_arr_ptr.is_null()`
abbrev pub has_array : OutBuffer → Bool
has_array os = ltb 0 os.cb && not (os.ptr == 0)

module _ {V : Type 0} (x : Externals V) where
  -- The identifier of a vault item, if it has one that decodes.
  unfoldable pub item_id : V → Option (List ℕ)
  item_id item = elim (x.as_str (x.index item "credentialId")) [
    | none ↦ none
    | some s ↦ x.b64_url_decode s
  ]

  -- The identifier in one record of the system's array; an empty one where there is none.
  unfoldable pub os_id : ℕ → ℕ → Process → List ℕ
  os_id arr i p =
      let d = x.credential_detail p.history arr i in
      if (d.ptr == 0) || (d.cb == 0) then [] else x.read_memory p.history d.ptr d.cb

  unfoldable pub os_ids_from : ℕ → ℕ → ℕ → Process → List (List ℕ)
  unfolding os_id
  os_ids_from zero i arr p = []
  os_ids_from (suc n) i arr p = os_id arr i p ∷ os_ids_from n (i + 1) arr p

  unfoldable pub os_ids : OutBuffer → Process → List (List ℕ)
  unfolding os_ids_from
  os_ids os p = if has_array os then os_ids_from os.cb 0 os.ptr p else []

  -- The item under the field names that `parse_add_credentials_fields` reads.
  unfoldable pub translated : V → V
  translated item = x.object (
      ("credentialIdB64Url", x.index item "credentialId")
      ∷ ("rpId", x.index item "rpId")
      ∷ ("rpName", x.index item "rpName")
      ∷ ("userHandleB64Url", x.index item "userHandle")
      ∷ ("userName", x.index item "userName")
      ∷ ("userDisplayName", x.index item "userDisplayName")
      ∷ [])

  -- The call for an item whose fields were read; `true` aborts the task.
  unfoldable pub add_parsed : Result String AddCredentialsFields → Process → Bool × Process
  add_parsed (err field) p = (false, p)
  add_parsed (ok fields) p =
      let (r, p') = add_credentials x (details_of fields) p in
      elim r [ ok hr ↦ (false, p') | err e ↦ (true, p') ]

  -- One round of the loop that adds.
  unfoldable pub add_one : List (List ℕ) → V → Process → Bool × Process
  unfolding item_id translated add_parsed
  add_one known item p = elim (item_id item) [
    | none ↦ (false, p)
    | some id ↦
        if contains known id
        then (false, p)
        else add_parsed (parse_add_credentials_fields x (translated item)) p
  ]

  unfoldable pub add_missing : List (List ℕ) → List V → Process → Bool × Process
  unfolding add_one
  add_missing known [] p = (false, p)
  add_missing known (item ∷ items) p =
      let (aborted, p') = add_one known item p in
      elim aborted [ true ↦ (true, p') | false ↦ add_missing known items p' ]

  unfoldable pub vault_ids : List V → List (List ℕ)
  unfolding item_id
  vault_ids [] = []
  vault_ids (item ∷ items) = elim (item_id item) [
    | none ↦ vault_ids items
    | some id ↦ id ∷ vault_ids items
  ]

  -- The loop that removes, from index `i` on; it ends when the entrypoint is missing.
  unfoldable pub remove_stale : List (List ℕ) → ℕ → ℕ → List (List ℕ) → Process → Process
  unfolding contains
  remove_stale vault arr i [] p = p
  remove_stale vault arr i (id ∷ ids) p = elim (is_empty id || contains vault id) [
    | true ↦ remove_stale vault arr (i + 1) ids p
    | false ↦
        let (r, p') = remove_credentials x arr i p in
        elim r [ ok hr ↦ remove_stale vault arr (i + 1) ids p' | err e ↦ p' ]
  ]

  -- Freeing the array where there is one.
  unfoldable pub free_array : OutBuffer → Process → Process
  unfolding free_credential_details_array
  free_array os p = if has_array os then free_credential_details_array x os.cb os.ptr p else p

  -- Steps 4 and 5, unless step 3 aborted.
  unfoldable pub finish : OutBuffer → List V → List (List ℕ) → Bool × Process → Process
  unfolding free_array
  finish os vault known (true, p) = free_array os p
  finish os vault known (false, p) =
      free_array os (if has_array os then remove_stale (vault_ids vault) os.ptr 0 known p else p)

  -- From the system's list on.
  unfoldable pub with_os_list : List V → Result Text OutBuffer × Process → Process
  unfolding os_ids finish
  with_os_list vault (err e, p) = p
  with_os_list vault (ok os, p) =
      let known = os_ids os p in finish os vault known (add_missing known vault p)

  -- From the answer of the plugin on.
  unfoldable pub with_vault : Result ClientError V → Process → Process
  unfolding with_os_list
  with_vault (err e) p = p
  with_vault (ok v) p = elim (x.as_array v) [
    | none ↦ p
    | some vault ↦ with_os_list vault (get_all_credentials x p)
  ]

  unfoldable pub reconcile_vault_with_os : ℕ → Process → Process
  unfolding with_vault
  reconcile_vault_with_os arc p = elim (pipe_of (get_elem? p.arcs arc)) [
    | none ↦ p
    | some pipe ↦
        let s : Session = record { client = pipe; process = set_pipe arc none p } in
        let (r, t) = call_value x "keepasskeywin.enumerateForSync" (x.object []) s in
        with_vault r (set_pipe arc (some t.client) t.process)
  ]
